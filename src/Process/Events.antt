-- ===== src/Process/Events.antt =====
-- process/process.go: `Event`, `Result`, `Start`, `Run`, `collect` and `emit`. The times are left
-- out. A process identifier is a number, and so is an error of `os/exec`.
mod Tests
use go_toolbelt.Base.{
  ℕ, ◌≡◌, ◌↔◌, refl, Bool, true, false, not, ◌||◌, ◌==◌, List, [], ◌∷◌, ◌++◌, Option, some, none,
  is_some, if◌then◌else◌, arith,
}

pub data Stream : Type 0 where
  stdout stderr : Stream

pub data EventType : Type 0 where
  started chunk completed failed canceled : EventType

-- The errors that are joined; the list is empty for nil.
pub data RunError : Type 0 where
  path_required : RunError
  start_failed : ℕ → RunError
  context_ended : ℕ → RunError
  wait_failed : ℕ → RunError

pub record Event : Type 0 where
  pub type : EventType
  pub stream : Stream
  pub bytes : List ℕ
  pub pid : ℕ
  -- the exit code, `none` for -1
  pub exit_code : Option ℕ
  pub errors : List RunError

pub record Outcome : Type 0 where
  pub pid : ℕ
  pub exit_code : Option ℕ
  pub is_canceled : Bool
  pub errors : List RunError

-- What `Wait`, the exit code and the context tell when the process has ended.
pub record Ended : Type 0 where
  pub wait_err : Option ℕ
  pub exit_code : Option ℕ
  pub ctx_err : Option ℕ

pub ended_errors : Ended → List RunError
ended_errors e =
    (elim e.ctx_err [ none ↦ [] | some c ↦ context_ended c ∷ [] ])
    ++ (elim e.wait_err [ none ↦ [] | some w ↦ wait_failed w ∷ [] ])

pub is_zero_exit : Option ℕ → Bool
is_zero_exit none = false
is_zero_exit (some n) = n == 0

-- The type of the last event.
pub event_type : Ended → EventType
unfolding is_zero_exit
event_type e =
    if is_some e.ctx_err
    then canceled
    else if is_some e.wait_err || not (is_zero_exit e.exit_code)
    then failed
    else completed

pub collect : ℕ → Ended → Outcome × Event
unfolding ended_errors event_type
collect pid e = (
  record {
    pid = pid;
    exit_code = e.exit_code;
    is_canceled = is_some e.ctx_err;
    errors = ended_errors e;
  },
  record {
    type = event_type e;
    stream = stdout;
    bytes = [];
    pid = pid;
    exit_code = e.exit_code;
    errors = ended_errors e;
  },
)

-- `processWriter.Write`, one event for each chunk.
pub chunk_event : ℕ → Stream × List ℕ → Event
chunk_event pid (s, written) = record {
  type = chunk;
  stream = s;
  bytes = written;
  pid = pid;
  exit_code = some 0;
  errors = [];
}

unfoldable pub chunk_events : ℕ → List (Stream × List ℕ) → List Event
unfolding chunk_event
chunk_events pid [] = []
chunk_events pid (w ∷ ws) = chunk_event pid w ∷ chunk_events pid ws

abbrev pub started_event : ℕ → Event
started_event pid = record {
  type = started;
  stream = stdout;
  bytes = [];
  pid = pid;
  exit_code = some 0;
  errors = [];
}

-- How `cmd.Start` ends: with an error, or with a process that writes chunks and ends.
pub data Launch : Type 0 where
  not_started : ℕ → Launch
  running : ℕ → List (Stream × List ℕ) → Ended → Launch

-- `Run` where `Start` has failed.
pub run_failed : RunError → Outcome × List Event
run_failed e = (
  record { pid = 0; exit_code = none; is_canceled = false; errors = e ∷ [] },
  record { type = failed; stream = stdout; bytes = []; pid = 0; exit_code = none; errors = e ∷ [] }
      ∷ [],
)

-- `Run`: the result, and the events that each sink is given, in order.
unfoldable pub run : List ℕ → Launch → Outcome × List Event
unfolding run_failed collect chunk_events
run [] l = run_failed path_required
run (c ∷ path) (not_started e) = run_failed (start_failed e)
run (c ∷ path) (running pid chunks ended) =
    let (result, last) = collect pid ended in
    (result, started_event pid ∷ (chunk_events pid chunks ++ (last ∷ [])))

-- The type of a last event.
abbrev pub is_final : EventType → Bool
is_final started = false
is_final chunk = false
is_final _ = true

-- Only the last of the events is final, and it tells what the result tells.
abbrev pub EndsWith : Outcome → List Event → Type 0
EndsWith r [] = ⊥
EndsWith r (e ∷ []) =
    (is_final e.type ≡ true)
    × (e.exit_code ≡ r.exit_code)
    × (e.errors ≡ r.errors)
    × ((e.type ≡ completed) ↔ ((r.errors ≡ []) × (r.exit_code ≡ some 0)))
    × ((e.type ≡ canceled) ↔ (r.is_canceled ≡ true))
EndsWith r (e ∷ e' ∷ es) = (is_final e.type ≡ false) × EndsWith r (e' ∷ es)

EndsWith-cons :
    (r : Outcome) (e : Event) (es : List Event)
    → is_final e.type ≡ false
    → EndsWith r es
    → EndsWith r (e ∷ es)
EndsWith-cons r e [] h k = absurd k
EndsWith-cons r e (e' ∷ es) h k = (h, k)

EndsWith-chunks :
    (r : Outcome) (pid : ℕ) (ws : List (Stream × List ℕ)) (es : List Event)
    → EndsWith r es
    → EndsWith r (chunk_events pid ws ++ es)
unfolding chunk_events chunk_event
EndsWith-chunks r pid [] es h = h
EndsWith-chunks r pid (w ∷ ws) es h =
    EndsWith-cons r (chunk_event pid w) (chunk_events pid ws ++ es) refl
      (EndsWith-chunks r pid ws es h)

collect-final : (pid : ℕ) (e : Ended) → EndsWith (collect pid e).0 ((collect pid e).1 ∷ [])
unfolding collect ended_errors event_type is_zero_exit
collect-final pid e = (
  ground arith,
  refl,
  refl,
  ((λ h. ground arith), λ h. ground arith),
  ((λ h. ground arith), λ h. ground arith),
)

-- Whatever the launch, `Run` ends with one final event and no event before it is final. That event
-- has the exit code and the errors of the result; it is of the type completed exactly if there are
-- no errors and the exit code is 0, and canceled exactly if the result is.
run-EndsWith : (path : List ℕ) (l : Launch) → EndsWith (run path l).0 (run path l).1
unfolding run run_failed
run-EndsWith [] l = ground arith
run-EndsWith (c ∷ path) (not_started e) = ground arith
run-EndsWith (c ∷ path) (running pid chunks ended) =
    EndsWith-cons (collect pid ended).0 (started_event pid) _ refl
      (EndsWith-chunks (collect pid ended).0 pid chunks _ (collect-final pid ended))
