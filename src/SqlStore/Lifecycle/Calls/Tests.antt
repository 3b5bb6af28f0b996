-- ===== src/SqlStore/Lifecycle/Calls/Tests.antt =====
-- sqlite/sqlite.go: a store that runs is stopped and started again, and one that does not answer.
use go_toolbelt.Base.{◌≡◌, refl, true, none, some}
use go_toolbelt.SqlStore.Connect.{Outcomes}
use go_toolbelt.SqlStore.Connect.Tests.{healthy, healthy_connects}
use go_toolbelt.SqlStore.Lifecycle.{AloneReach}
use go_toolbelt.SqlStore.Lifecycle.Tests.{
  running, done_closing, running_reached, done_closing_reached,
}
use go_toolbelt.SqlStore.Lifecycle.Calls.{start_store, closed_first, stop_store}
use go_toolbelt.SqlStore.Lifecycle.Calls.Laws.{
  Started, start_store_all_or_nothing, stopped_starts_again,
}

abbrev silent : Outcomes
silent = record healthy { ping_err = some 3; close_err = some 4 }

start_store_all_or_nothing_test :
    AloneReach (start_store silent done_closing).0
    × Started done_closing (start_store silent done_closing).0 (start_store silent done_closing).1
start_store_all_or_nothing_test =
    start_store_all_or_nothing silent done_closing done_closing_reached refl

stopped_starts_again_example :
    let t = (stop_store (some 7) (closed_first (some 8)) running).0 in
    let r = start_store healthy t in
    (t.open_dbs ≡ 0) × (r.1 ≡ none) × (r.0.store.live ≡ true) × (r.0.open_dbs ≡ 1)
stopped_starts_again_example =
    stopped_starts_again (some 7) (some 8) healthy running running_reached refl healthy_connects
