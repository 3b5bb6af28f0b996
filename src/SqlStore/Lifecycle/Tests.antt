-- ===== src/SqlStore/Lifecycle/Tests.antt =====
-- sqlite/sqlite.go: a store that is started, stopped, and started again before `Stop` returns.
use go_toolbelt.Base.{ℕ, ◌≡◌, refl, inr, arith, Bool, true, false, [], Option, none, some, subst}
use go_toolbelt.SqlStore.Connect.{connected, open_database, settle}
use go_toolbelt.SqlStore.Connect.Tests.{healthy, healthy_settles}
use go_toolbelt.SqlStore.Lifecycle.{
  new_store, CloseState, check_closing, begin_start, end_start, begin_stop, end_close, end_stop,
  count_call, count_calls, System, began, opened, settled, closed, Step, call_start, opens, settles,
  call_stop, closes, stopped, IsAlone, AloneReach, start_alone, later_alone, Reach, start, later,
}
use go_toolbelt.SqlStore.Lifecycle.Laws.{may_become, phase, dbs_in, lifecycle_refines}

abbrev system_of : Bool → Option CloseState → ℕ → ℕ → ℕ → ℕ → System
system_of live closing made opening holding dbs = record {
  store = record { live = live; closing = closing; made = made };
  opening = opening;
  holding = holding;
  open_dbs = dbs;
}

abbrev under_way : System
under_way = system_of false none 0 1 0 0

abbrev on_trial : System
on_trial = system_of false none 0 0 1 1

abbrev pub running : System
running = system_of true none 0 0 0 1

abbrev pub done_closing : System
done_closing = system_of false (some (record { id = 0; done = true; err = none })) 1 0 0 0

abbrev restarting : System
restarting = system_of false none 1 1 0 0

-- A database that connects is installed.
installs : (s : System) → Step s (settled s (settle healthy)) → Step s (settled s (connected, []))
installs s st = subst (λ p. Step s (settled s p)) healthy_settles st

on_trial_reached : AloneReach on_trial
unfolding began begin_start check_closing opened open_database count_calls count_call
on_trial_reached =
    later_alone (later_alone start_alone call_start refl) (opens none (omega arith)) tt

pub running_reached : AloneReach running
unfolding settled end_start count_calls
running_reached =
    subst AloneReach settled_running
      (later_alone on_trial_reached (settles healthy (omega arith)) tt)
  where
    settled_running : settled on_trial (settle healthy) ≡ running
    settled_running = rw healthy_settles refl

pub done_closing_reached : AloneReach done_closing
unfolding begin_stop closed end_close count_calls count_call
done_closing_reached =
    later_alone (later_alone running_reached call_stop tt)
      (closes (record { id = 0; done = false; err = none }) none refl refl) tt

restarts : Step done_closing restarting
unfolding began begin_start check_closing
restarts = call_start

restarts-IsAlone : IsAlone done_closing restarting restarts
unfolding restarts began begin_start check_closing
restarts-IsAlone = refl

lifecycle_refines_example :
    (may_become (phase done_closing) (phase restarting) ≡ true)
    × (done_closing.open_dbs ≡ dbs_in (phase done_closing))
    × (restarting.open_dbs ≡ dbs_in (phase restarting))
lifecycle_refines_example =
    lifecycle_refines done_closing restarting done_closing_reached restarts restarts-IsAlone

-- Where two calls of `Start` overlap, the database of the first is lost: it stays open behind `Stop`.
abbrev lost : System
lost = system_of false none 1 0 0 1

both_installed : Reach (system_of true none 0 0 0 2)
unfolding began begin_start check_closing opened open_database settled end_start count_calls
    count_call
both_installed =
    let opened_twice : Reach (system_of false none 0 0 2 2) =
      later (later (later (later start call_start) call_start) (opens none (omega arith)))
        (opens none (omega arith)) in
    let first : Reach (system_of true none 0 0 1 2) =
      later opened_twice
        (installs (system_of false none 0 0 2 2) (settles healthy (omega arith))) in
    later first (installs (system_of true none 0 0 1 2) (settles healthy (omega arith)))

lost_reached : Reach lost
unfolding begin_stop closed end_close end_stop count_calls count_call
lost_reached =
    later
      (later (later both_installed call_stop)
        (closes (record { id = 0; done = false; err = none }) none refl refl))
      (stopped 0 (inr refl))

pub new_begins : begin_start new_store ≡ (new_store, none)
unfolding begin_start check_closing
new_begins = refl
