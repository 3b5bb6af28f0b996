-- ===== src/SqlStore/Lifecycle/Calls.antt =====
-- sqlite/sqlite.go and postgres/postgres.go: whole calls of `Start` and `Stop`, from the sections of
-- Lifecycle, where no other call comes in between. What `select` in `Stop` sees first is an argument.
pub mod Laws
pub mod Tests
use go_toolbelt.Base.{ℕ, ◌-◌, List, [], ◌∷◌, Option, none, some, if◌then◌else◌}
use go_toolbelt.SqlStore.Connect.{
  Outcomes, StartFailure, Connected, connected, not_opened, closed_again, settle, connect,
}
use go_toolbelt.SqlStore.Lifecycle.{
  CloseState, Store, StartError, begin_start, begin_stop, end_close, end_stop, stop_errors, System,
  began, opened, settled, closed,
}

-- Why a `Start` returns an error.
pub data Failure : Type 0 where
  refused : StartError → Failure
  open_failed : ℕ → Failure
  failed : StartFailure → Option ℕ → Failure

pub failure_of : Connected → Option Failure
failure_of connected = none
failure_of (not_opened e) = some (open_failed e)
failure_of (closed_again f e) = some (failed f e)

-- `Start` from the opening, by its error, to the end.
pub prepare : Outcomes → System → Option ℕ → System
prepare o s none = settled (opened s none) (settle o)
prepare o s (some e) = opened s (some e)

-- Behind the first section of `Start`.
pub go_on : Outcomes → System → Store × Option StartError → System × Option Failure
unfolding prepare failure_of
go_on o s (st, none) = (prepare o (began s (st, none)) o.open_err, failure_of (connect o))
go_on o s (st, some e) = (began s (st, some e), some (refused e))

pub start_store : Outcomes → System → System × Option Failure
unfolding go_on
start_store o s = go_on o s (begin_start s.store)

-- What `select` in `Stop` takes: the closing, with the error of the context behind it, if it has one
-- by then, or the end of the context.
pub data Wait : Type 0 where
  closed_first : Option ℕ → Wait
  context_first : ℕ → Wait

-- The goroutine that closes, where it has not ended yet, with what `Close` returns.
pub run_closing : Option ℕ → System → Option CloseState → System
run_closing e s none = s
run_closing e s (some c) = if c.done then s else closed s (end_close e c)

close_error : Option CloseState → Option ℕ
close_error none = none
close_error (some c) = c.err

-- `Stop` behind its first section, which found a closing to wait for or nothing to do. A database
-- that the context did not wait for is closed later, by a step of its goroutine.
pub wait_closing : Option ℕ → Wait → System → Option ℕ → System × List ℕ
unfolding close_error
wait_closing e w s none = (s, [])
wait_closing e (closed_first ctx) s (some i) =
    let s' = run_closing e s s.store.closing in
    (record s' { store = end_stop i s'.store }, stop_errors (close_error s'.store.closing) ctx)
wait_closing e (context_first ctx) s (some i) = (s, ctx ∷ [])

pub stop_store : Option ℕ → Wait → System → System × List ℕ
unfolding wait_closing run_closing
stop_store e w s = let (st, i) = begin_stop s.store in wait_closing e w (record s { store = st }) i
