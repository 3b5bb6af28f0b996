-- ===== src/SqlStore/Postgres/Tests.antt =====
-- postgres/postgres.go: no name of a source, and a store that runs.
use go_toolbelt.Base.{◌≡◌, refl, some}
use go_toolbelt.Base.Int.{pos}
use go_toolbelt.SqlStore.Connect.{Config}
use go_toolbelt.SqlStore.Connect.Tests.{healthy}
use go_toolbelt.SqlStore.Lifecycle.{init}
use go_toolbelt.SqlStore.Postgres.{new, start, dsn_required}

abbrev unnamed : Config
unnamed = record { dsn = ""; max_open_conns = pos 0; max_idle_conns = pos 0; max_idle_time = pos 0 }

unnamed_refused : start unnamed healthy (new unnamed).1 ≡ (init, some dsn_required)
unfolding start new
unnamed_refused = refl
