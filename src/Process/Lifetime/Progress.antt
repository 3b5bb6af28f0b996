-- ===== src/Process/Lifetime/Progress.antt =====
-- process/process.go: a process and its goroutines never lock up, and come to an end.
use go_toolbelt.Base.{
  ℕ, suc, ◌+◌, ◌*◌, ◌-◌, ◌≡◌, ◌<◌, ◌≤◌, ◌⊎◌, inl, inr, refl, ap, subst, ◌∙◌, Option, none, some,
  ltb, arith, Bool-cases,
}
use go_toolbelt.Process.Events.{Stream, stdout, stderr, Ended}
use go_toolbelt.Process.Lifetime.{
  init, at_stream, Writer, reading, writing, ended, Collector, waiting, finishing, emitted,
  returned, Emitter, by_writer, by_collector, System, released, Step, announces, opens, reads,
  stream_ends, locks, process_ends, locks_last, gives, unlocks, returns, Reach, start, later,
}
use go_toolbelt.Process.Lifetime.Invariant.{Holds, IsValid, Reach-IsValid}

-- No event has been given to more sinks than there are.
abbrev pub InBounds : ℕ → Option ℕ → Option (Emitter × ℕ) → Type 0
InBounds sinks (some k) none = k ≤ sinks
InBounds sinks (some k) (some (w, j)) = (k ≤ sinks) × (j ≤ sinks)
InBounds sinks none none = Unit {0}
InBounds sinks none (some (w, j)) = j ≤ sinks

Step-InBounds :
    (pid sinks : ℕ) (s t : System)
    → Step pid sinks s t
    → InBounds sinks s.announcing s.emitting
    → InBounds sinks t.announcing t.emitting
unfolding released
Step-InBounds pid sinks s _ (announces k p h) v = ground arith
Step-InBounds pid sinks s _ (opens p) v = ground arith
Step-InBounds pid sinks s _ (reads t b p) v = v
Step-InBounds pid sinks s _ (stream_ends t p) v = v
Step-InBounds pid sinks s _ (locks t b p q r) v = ground arith
Step-InBounds pid sinks s _ (process_ends e p q r u) v = v
Step-InBounds pid sinks s _ (locks_last e p q) v = ground arith
Step-InBounds pid sinks s _ (gives w k p h) v = ground arith
Step-InBounds pid sinks s _ (unlocks (by_writer t b) p) v = ground arith
Step-InBounds pid sinks s _ (unlocks (by_collector e) p) v = ground arith
Step-InBounds pid sinks s _ (returns e p) v = v

Reach-InBounds :
    (pid sinks : ℕ) (s : System) → Reach pid sinks s → InBounds sinks s.announcing s.emitting
Reach-InBounds pid sinks _ start = omega arith
Reach-InBounds pid sinks _ (later {s} {t} r st) =
    Step-InBounds pid sinks s t st (Reach-InBounds pid sinks s r)

abbrev emission_done : Option (Emitter × ℕ) → ℕ
emission_done none = 0
emission_done (some (w, k)) = k + 1

-- How many steps are left at most, less those that the holder of `sinkMu` has done, if there is
-- nothing more to read.
module _ (sinks : ℕ) where
  abbrev announcing_left : Option ℕ → ℕ
  announcing_left none = 0
  announcing_left (some k) = (sinks - k) + 1

  abbrev writer_left : Writer → ℕ
  writer_left reading = 1
  writer_left (writing b) = sinks + 3
  writer_left ended = 0

  abbrev collector_left : Collector → ℕ
  collector_left waiting = sinks + 4
  collector_left (finishing e) = sinks + 3
  collector_left (emitted e) = 1
  collector_left (returned e) = 0

  abbrev left : System → ℕ
  left s =
      announcing_left s.announcing
      + (writer_left (s.writer stdout)
          + (writer_left (s.writer stderr) + collector_left s.collector))

-- The steps of a run, and how many of them read a chunk.
pub steps : {pid sinks : ℕ} {s : System} → Reach pid sinks s → ℕ
steps start = 0
steps (later r st) = suc (steps r)

abbrev is_read : {pid sinks : ℕ} {s t : System} → Step pid sinks s t → ℕ
is_read (reads t b p) = 1
is_read _ = 0

pub read_steps : {pid sinks : ℕ} {s : System} → Reach pid sinks s → ℕ
read_steps start = 0
read_steps (later r st) = is_read st + read_steps r

Step-left :
    (pid sinks : ℕ) (s t : System) (st : Step pid sinks s t)
    → IsValid pid sinks s
    → left sinks t + emission_done s.emitting + 1
      ≤ left sinks s + emission_done t.emitting + is_read st * (sinks + 3)
unfolding released at_stream
Step-left pid sinks s _ (announces k p h) v = ground arith
Step-left pid sinks s _ (opens p) v = ground arith
Step-left pid sinks s _ (reads stdout b p) v = ground arith
Step-left pid sinks s _ (reads stderr b p) v = ground arith
Step-left pid sinks s _ (stream_ends stdout p) v = ground arith
Step-left pid sinks s _ (stream_ends stderr p) v = ground arith
Step-left pid sinks s _ (locks t b p q r) v = ground arith
Step-left pid sinks s _ (process_ends e p q r u) v = ground arith
Step-left pid sinks s _ (locks_last e p q) v = ground arith
Step-left pid sinks s _ (gives w k p h) v = ground arith
Step-left pid sinks s _ (unlocks (by_writer stdout b) p) v =
    ground (arith, subst (Holds s.writer s.collector) p v.held)
Step-left pid sinks s _ (unlocks (by_writer stderr b) p) v =
    ground (arith, subst (Holds s.writer s.collector) p v.held)
Step-left pid sinks s _ (unlocks (by_collector e) p) v =
    ground (arith, subst (Holds s.writer s.collector) p v.held)
Step-left pid sinks s _ (returns e p) v = ground arith

run_bounded :
    (pid sinks : ℕ) (s : System) (r : Reach pid sinks s)
    → steps r + left sinks s
      ≤ left sinks init + emission_done s.emitting + read_steps r * (sinks + 3)
unfolding steps read_steps
run_bounded pid sinks _ start = omega arith
run_bounded pid sinks _ (later {s} {t} r st) =
    omega
      (arith, run_bounded pid sinks s r, Step-left pid sinks s t st (Reach-IsValid pid sinks s r))

emission_bounded :
    (sinks : ℕ) (a : Option ℕ) (o : Option (Emitter × ℕ))
    → InBounds sinks a o
    → emission_done o ≤ sinks + 1
emission_bounded sinks a none h = omega arith
emission_bounded sinks none (some (w, j)) h = omega arith
emission_bounded sinks (some k) (some (w, j)) h = omega (arith, h.1)

-- A step that does not wait for output of the process.
abbrev pub CanStep : (pid sinks : ℕ) → System → Type 0
CanStep pid sinks s = (t : System) × (st : Step pid sinks s t) × (is_read st ≡ 0)

writer_steps :
    (pid sinks : ℕ) (s : System) (t : Stream) (x : Writer)
    → s.writer t ≡ x
    → s.announcing ≡ none
    → s.emitting ≡ none
    → (s.writer t ≡ ended) ⊎ CanStep pid sinks s
writer_steps pid sinks s t reading p a o = inr (_, stream_ends t p, refl)
writer_steps pid sinks s t (writing b) p a o = inr (_, locks t b p a o, refl)
writer_steps pid sinks s t ended p a o = inl p

collector_steps :
    (pid sinks : ℕ) (s : System) (c : Collector)
    → s.collector ≡ c
    → s.announcing ≡ none
    → s.emitting ≡ none
    → s.writer stdout ≡ ended
    → s.writer stderr ≡ ended
    → ((e : Ended) × (s.collector ≡ returned e)) ⊎ CanStep pid sinks s
collector_steps pid sinks s waiting p a o h k =
    inr (
      _,
      process_ends (record { wait_err = none; exit_code = some 0; ctx_err = none }) p a h k,
      refl,
    )
collector_steps pid sinks s (finishing e) p a o h k = inr (_, locks_last e p o, refl)
collector_steps pid sinks s (emitted e) p a o h k = inr (_, returns e p, refl)
collector_steps pid sinks s (returned e) p a o h k = inl (e, p)

below_or_all : (k n : ℕ) → k ≤ n → (k < n) ⊎ (k ≡ n)
below_or_all k n h = elim (Bool-cases (ltb k n)) [
  | inl e ↦ inl (ground (arith, e))
  | inr e ↦ inr (ground (arith, e))
]

steps_at :
    (pid sinks : ℕ) (s : System) (a : Option ℕ) (o : Option (Emitter × ℕ))
    → s.announcing ≡ a
    → s.emitting ≡ o
    → InBounds sinks a o
    → ((e : Ended) × (s.collector ≡ returned e)) ⊎ CanStep pid sinks s
steps_at pid sinks s (some k) none p q h = elim (below_or_all k sinks h) [
  | inl lt ↦ inr (_, announces k p lt, refl)
  | inr e ↦ inr (_, opens (p ∙ ap some e), refl)
]
steps_at pid sinks s (some k) (some (w, j)) p q h = elim (below_or_all k sinks h.0) [
  | inl lt ↦ inr (_, announces k p lt, refl)
  | inr e ↦ inr (_, opens (p ∙ ap some e), refl)
]
steps_at pid sinks s none (some (w, j)) p q h = elim (below_or_all j sinks h) [
  | inl lt ↦ inr (_, gives w j q lt, refl)
  | inr e ↦ inr (_, unlocks w (q ∙ ap (λ x. some (w, x)) e), refl)
]
steps_at pid sinks s none none p q h = elim (writer_steps pid sinks s stdout _ refl p q) [
  | inr c ↦ inr c
  | inl out_ended ↦ elim (writer_steps pid sinks s stderr _ refl p q) [
    | inr c ↦ inr c
    | inl err_ended ↦ collector_steps pid sinks s _ refl p q out_ended err_ended
  ]
]

-- A process comes to an end: in every reachable state `Wait` can return, or there is a step that does
-- not wait for more output; and the steps of a run number at most three more than the chunks that it
-- has read, times three more than the sinks.
pub process_terminates :
    (pid sinks : ℕ) (s : System) (r : Reach pid sinks s)
    → (((e : Ended) × (s.collector ≡ returned e)) ⊎ CanStep pid sinks s)
      × (steps r ≤ (read_steps r + 3) * (sinks + 3))
process_terminates pid sinks s r =
    let bounds = Reach-InBounds pid sinks s r in
    (
      steps_at pid sinks s s.announcing s.emitting refl refl bounds,
      omega
          (arith, run_bounded pid sinks s r, emission_bounded sinks s.announcing s.emitting bounds),
    )
