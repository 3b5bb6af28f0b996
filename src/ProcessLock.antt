-- ===== src/ProcessLock.antt =====
-- processlock/processlock.go: `Lock`, `Start` and `Stop`. What `acquire` and the handle's `release`
-- return is an argument; ProcessLock/Unix.antt models them for Linux and macOS, and
-- ProcessLock/Windows.antt for Windows. The mutex makes each call one step.
pub mod Unix
pub mod Windows
pub mod Laws
mod Tests
use go_toolbelt.Base.{
  ℕ, Bool, true, false, not, String, List, [], ◌∷◌, ◌++◌, Option, none, some, str_eq, if◌then◌else◌,
}

pub record Lock : Type 0 where
  pub path : String
  pub name : String
  -- `handle != nil`
  pub held : Bool

pub new : String → String → Lock
new path name = record {
  path = path;
  name = if str_eq name "" then "process lock" else name;
  held = false;
}

pub data StartError : Type 0 where
  context_ended : ℕ → StartError
  path_required already_started : StartError
  not_acquired : ℕ → StartError

pub data Effect : Type 0 where
  -- `acquire` has returned a handle
  acquires : Effect
  -- the handle's `release` has been called: whether it reports the lock as released
  releases : Bool → Effect

-- The state of the context, and the error of `acquire`.
pub start : Option ℕ → Option ℕ → Lock → Lock × Option StartError × List Effect
start ctx_err acquire_err l = elim ctx_err [
  | some e ↦ (l, some (context_ended e), [])
  | none ↦
      if str_eq l.path ""
      then (l, some path_required, [])
      else if l.held
      then (l, some already_started, [])
      else elim acquire_err [
        | some e ↦ (l, some (not_acquired e), [])
        | none ↦ (record l { held = true }, none, acquires ∷ [])
      ]
]

-- What `release` returns: whether the lock is released, and the errors that it joins.
pub record Release : Type 0 where
  pub released : Bool
  pub errors : List ℕ

pub stop : Release → Lock → Lock × List ℕ × List Effect
stop r l =
    if not l.held
    then (l, [], [])
    else if r.released
    then (record l { held = false }, r.errors, releases true ∷ [])
    else (l, r.errors, releases false ∷ [])

pub data Call : Type 0 where
  starts : Option ℕ → Option ℕ → Call
  stops : Release → Call

pub perform : Call → Lock → Lock × List Effect
unfolding start stop
perform (starts ctx e) l = let (l', err, effects) = start ctx e l in (l', effects)
perform (stops r) l = let (l', errs, effects) = stop r l in (l', effects)

-- The calls on a lock, one after another, and all their effects.
pub perform_all : List Call → Lock → Lock × List Effect
unfolding perform
perform_all [] l = (l, [])
perform_all (c ∷ cs) l =
    let first = perform c l in let rest = perform_all cs first.0 in (rest.0, first.1 ++ rest.1)
