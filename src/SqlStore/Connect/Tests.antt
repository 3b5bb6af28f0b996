-- ===== src/SqlStore/Connect/Tests.antt =====
-- sqlite/sqlite.go: a database that opens, and one that does not answer.
use go_toolbelt.Base.{◌≡◌, refl, [], none, some}
use go_toolbelt.Base.Result.{ok}
use go_toolbelt.SqlStore.Connect.{
  Outcomes, connect, settle, close_after_start_error, start_failure, run_migrator, connected,
  closed_again, ping_failed,
}

abbrev pub healthy : Outcomes
healthy = record {
  open_err = none;
  ping_err = none;
  migrations = ok tt;
  migrator = none;
  close_err = none;
}

pub healthy_connects : connect healthy ≡ connected
unfolding connect settle start_failure run_migrator
healthy_connects = refl

pub healthy_settles : settle healthy ≡ (connected, [])
unfolding settle start_failure run_migrator
healthy_settles = refl

silent_closed : connect (record healthy { ping_err = some 3 }) ≡ closed_again (ping_failed 3) none
unfolding connect settle start_failure close_after_start_error
silent_closed = refl
