-- ===== src/Jobs/Manager/Listing/Laws.antt =====
-- examples/advanced-jobs/main.go: what `Jobs` returns in the states that the manager reaches.
use go_toolbelt.Base.{
  ℕ, suc, ◌≡◌, ◌∙◌, true, false, ◌==◌, List, [], ◌∷◌, arith, Bool-cases, inl, inr,
}
use go_toolbelt.Jobs.Manager.{
  JobStatus, completed, canceled, Job, find_job, set_status, start_job, cancel_job, finish_job,
  System, init, started, signaled, ended, Step, call_start, call_cancel, call_stop, parent_ends,
  expires, notices, Steps, here, next,
}
use go_toolbelt.Jobs.Manager.Laws.{IsValid, Steps-IsValid, find_job-set_status}
use go_toolbelt.Jobs.Manager.Listing.{sort_jobs, find_job-sort_jobs}
use go_toolbelt.Jobs.Manager.Listing.Order.{
  IsMap, IsAscending, sort_jobs_unique, sort_jobs-IsAscending,
}

set_status-IsMap : (st : JobStatus) (js : List Job) (i : ℕ) → IsMap js → IsMap (set_status st js i)
unfolding set_status find_job
set_status-IsMap st [] i m = tt
set_status-IsMap st (j ∷ js) i m = elim (Bool-cases (j.id == i)) [
  | inl e ↦ rw e m
  | inr e ↦
      rw e (ground (arith, find_job-set_status st js i j.id, m.0), set_status-IsMap st js i m.1)
]

Step-IsMap : (s t : System) → Step s t → IsValid s → IsMap s.manager.jobs → IsMap t.manager.jobs
unfolding started start_job signaled ended finish_job
Step-IsMap s _ (call_start d) v m = (v.known (suc s.manager.next_id) (omega arith), m)
Step-IsMap s _ (call_cancel i) v m =
    elim (cancel_job i s.manager) as (λ b. IsMap (signaled i s b).manager.jobs) [
      | true ↦ m
      | false ↦ m
    ]
Step-IsMap s _ call_stop v m = m
Step-IsMap s _ parent_ends v m = m
Step-IsMap s _ (expires i r) v m = set_status-IsMap completed s.manager.jobs i m
Step-IsMap s _ (notices i r h) v m = set_status-IsMap canceled s.manager.jobs i m

Steps-IsMap : (s : System) → Steps init s → IsMap s.manager.jobs
Steps-IsMap _ here = tt
Steps-IsMap _ (next {t} {u} r st) = Step-IsMap t u st (Steps-IsValid t r) (Steps-IsMap t r)

-- In every state that the manager reaches, whatever the order in which the values of its map come,
-- `Jobs` returns the same list: by ascending ids, no id twice, and each id stands for the same job as
-- in the map.
pub jobs_listed_alike :
    (s : System) (values : List Job)
    → Steps init s
    → IsMap values
    → ((i : ℕ) → find_job values i ≡ find_job s.manager.jobs i)
    → (sort_jobs values ≡ sort_jobs s.manager.jobs)
      × IsAscending (sort_jobs values)
      × ((i : ℕ) → find_job (sort_jobs values) i ≡ find_job s.manager.jobs i)
jobs_listed_alike s values r m h = (
  sort_jobs_unique values s.manager.jobs m (Steps-IsMap s r) h,
  sort_jobs-IsAscending values m,
  λ i. find_job-sort_jobs i values ∙ h i,
)
