-- ===== src/Jobs/Manager/Laws.antt =====
-- examples/advanced-jobs/main.go: what holds of a job manager under every interleaving.
use go_toolbelt.Base.{
  ◌≤◌, ◌⊎◌, ℕ, suc, ◌<◌, ◌≡◌, refl, sym, ap, ◌∙◌, Bool, true, false, ◌==◌, inl, inr, List, [], ◌∷◌,
  Option, none, some, length, if◌then◌else◌, arith, Bool-cases, eq_of_test,
}
use go_toolbelt.Base.Int.{ℤ}
use go_toolbelt.Base.Ids.{
  has, without, are_distinct, has-without, distinct-without, length-without, none_left,
}
use go_toolbelt.Jobs.Manager.{
  JobStatus, running, completed, canceled, Job, find_job, set_status, start_job, cancel_job,
  finish_job, System, init, started, signaled, ended, Step, call_start, call_cancel, call_stop,
  parent_ends, expires, notices, Steps, here, next,
}

abbrev pub is_running : Option Job → Bool
is_running none = false
is_running (some j) = elim j.status [ running ↦ true | completed ↦ false | canceled ↦ false ]

pub status_of : System → ℕ → Option JobStatus
unfolding find_job
status_of s i = elim (find_job s.manager.jobs i) [ none ↦ none | some j ↦ some j.status ]

pub find_job-set_status :
    (st : JobStatus) (js : List Job) (i k : ℕ)
    → find_job (set_status st js i) k ≡ (
        if i == k
        then elim (find_job js k) [ none ↦ none | some j ↦ some (record j { status = st }) ]
        else find_job js k)
unfolding find_job set_status
find_job-set_status st [] i k = ground arith
find_job-set_status st (j ∷ js) i k = ground (arith, find_job-set_status st js i k)

-- The goroutines are those of the running jobs, which are the jobs that can be canceled and that the
-- wait group counts; the ids go up to `nextID`.
pub record IsValid (s : System) : Type 0 where
  pub same : s.manager.cancels ≡ s.runners
  pub counted : s.manager.active ≡ length s.runners
  pub distinct : are_distinct s.runners ≡ true
  pub live : (i : ℕ) → has s.runners i ≡ is_running (find_job s.manager.jobs i)
  pub known : (i : ℕ) → s.manager.next_id < i → find_job s.manager.jobs i ≡ none

ended-IsValid :
    (st : JobStatus) (i : ℕ) (s : System)
    → is_running (some (record { id = i; duration = ℤ.pos 0; status = st })) ≡ false
    → has s.runners i ≡ true
    → IsValid s
    → IsValid (ended st i s)
unfolding ended finish_job
ended-IsValid st i s h r v = record {
  same = ap (λ is. without is i) v.same;
  counted = omega (arith, v.counted, length-without s.runners i v.distinct r);
  distinct = distinct-without s.runners i v.distinct;
  live = λ k.
      ground
        (arith, has-without s.runners i k, find_job-set_status st s.manager.jobs i k, v.live k);
  known = λ k lt. ground (arith, find_job-set_status st s.manager.jobs i k, v.known k lt);
}

started-IsValid :
    (duration : ℤ) (s : System) → IsValid s → IsValid (started s (start_job duration s.manager))
unfolding started start_job has find_job
started-IsValid duration s v = record {
  same = ap (◌∷◌ (suc s.manager.next_id)) v.same;
  counted = omega (arith, v.counted);
  distinct =
      ground (arith, v.live (suc s.manager.next_id), v.known (suc s.manager.next_id), v.distinct);
  live = λ k. ground (arith, v.live k);
  known = λ k lt. ground (arith, v.known k);
}

Step-IsValid : (s t : System) → Step s t → IsValid s → IsValid t
unfolding signaled
Step-IsValid s _ (call_start d) v = started-IsValid d s v
Step-IsValid s _ (call_cancel i) v =
    elim (cancel_job i s.manager) as (λ b. IsValid (signaled i s b)) [
      | true ↦ record {
        same = v.same;
        counted = v.counted;
        distinct = v.distinct;
        live = v.live;
        known = v.known;
      }
      | false ↦ v
    ]
Step-IsValid s _ call_stop v = record {
  same = v.same;
  counted = v.counted;
  distinct = v.distinct;
  live = v.live;
  known = v.known;
}
Step-IsValid s _ parent_ends v = record {
  same = v.same;
  counted = v.counted;
  distinct = v.distinct;
  live = v.live;
  known = v.known;
}
Step-IsValid s _ (expires i r) v = ended-IsValid completed i s refl r v
Step-IsValid s _ (notices i r h) v = ended-IsValid canceled i s refl r v

pub Steps-IsValid : (s : System) → Steps init s → IsValid s
unfolding has find_job
Steps-IsValid _ here = record {
  same = refl;
  counted = refl;
  distinct = refl;
  live = λ i. refl;
  known = λ i h. refl;
}
Steps-IsValid _ (next {t} {u} r st) = Step-IsValid t u st (Steps-IsValid t r)

-- In every reachable state `CancelJob` finds a job exactly while it runs; the wait group counts the
-- goroutines of the running jobs, so that when its counter is 0, which is what `Stop` waits for, no
-- job runs.
cancel_finds_running :
    (s : System) (i : ℕ)
    → Steps init s
    → (cancel_job i s.manager ≡ is_running (find_job s.manager.jobs i))
      × (s.manager.active ≡ length s.runners)
      × ((1 ≤ s.manager.active) ⊎ (is_running (find_job s.manager.jobs i) ≡ false))
unfolding cancel_job
cancel_finds_running s i r =
    let v = Steps-IsValid s r in
    (
      ap (λ is. has is i) v.same ∙ v.live i,
      v.counted,
      elim (Bool-cases (s.manager.active == 0)) [
        | inl z ↦ inr (sym (v.live i) ∙ none_left s.runners i (ground (arith, v.counted, z)))
        | inr z ↦ inl (ground (arith, z))
      ],
    )

-- What may become of a job: it starts, runs, and ends once.
abbrev pub may_turn : Option JobStatus → Option JobStatus → Bool
may_turn none none = true
may_turn none (some running) = true
may_turn (some running) (some _) = true
may_turn (some completed) (some completed) = true
may_turn (some canceled) (some canceled) = true
may_turn _ _ = false

may_turn_refl : (o : Option JobStatus) → may_turn o o ≡ true
may_turn_refl none = refl
may_turn_refl (some running) = refl
may_turn_refl (some completed) = refl
may_turn_refl (some canceled) = refl

started-may_turn :
    (duration : ℤ) (s : System) (k : ℕ)
    → IsValid s
    → may_turn (status_of s k) (status_of (started s (start_job duration s.manager)) k) ≡ true
unfolding started start_job status_of find_job
started-may_turn duration s k v = ground (arith, v.known k, may_turn_refl (status_of s k))

ended-may_turn :
    (st : JobStatus) (i : ℕ) (s : System) (k : ℕ)
    → has s.runners i ≡ true
    → IsValid s
    → may_turn (status_of s k) (status_of (ended st i s) k) ≡ true
unfolding ended finish_job status_of
ended-may_turn st i s k r v = ground (
  arith,
  find_job-set_status st s.manager.jobs i k,
  v.live i,
  eq_of_test i k,
  may_turn_refl (status_of s k),
)

Step-may_turn :
    (s t : System) (i : ℕ) → Step s t → IsValid s → may_turn (status_of s i) (status_of t i) ≡ true
unfolding signaled status_of
Step-may_turn s _ k (call_start d) v = started-may_turn d s k v
Step-may_turn s _ k (call_cancel i) v =
    elim (cancel_job i s.manager)
      as (λ b. may_turn (status_of s k) (status_of (signaled i s b) k) ≡ true) [
        | true ↦ may_turn_refl (status_of s k)
        | false ↦ may_turn_refl (status_of s k)
      ]
Step-may_turn s _ k call_stop v = may_turn_refl (status_of s k)
Step-may_turn s _ k parent_ends v = may_turn_refl (status_of s k)
Step-may_turn s _ k (expires i r) v = ended-may_turn completed i s k r v
Step-may_turn s _ k (notices i r h) v = ended-may_turn canceled i s k r v

-- Every step of a reachable manager leaves each job as it is, or is a move of the life that a job is
-- meant to have: it starts once, runs, and ends once, as completed or as canceled.
pub job_life_refines :
    (s t : System) (i : ℕ)
    → Steps init s
    → Step s t
    → may_turn (status_of s i) (status_of t i) ≡ true
job_life_refines s t i r st = Step-may_turn s t i st (Steps-IsValid s r)
