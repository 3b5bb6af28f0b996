-- ===== src/SqlStore/Sqlite/Tests.antt =====
-- sqlite/sqlite.go: the configuration that `New` makes of an empty one.
use go_toolbelt.Base.{arith, ◌≡◌, refl, none}
use go_toolbelt.Base.Int.{pos}
use go_toolbelt.SqlStore.Connect.{Config}
use go_toolbelt.SqlStore.Lifecycle.{new_store}
use go_toolbelt.SqlStore.Lifecycle.Tests.{new_begins}
use go_toolbelt.SqlStore.Sqlite.{memory_dsn, new, begin_sqlite, is_config_refused}

abbrev memory : Config
memory = record {
  dsn = memory_dsn;
  max_open_conns = pos 1;
  max_idle_conns = pos 0;
  max_idle_time = pos 0;
}

empty_is_memory : new (record memory { dsn = ""; max_open_conns = pos 0 }) ≡ memory
unfolding new
empty_is_memory = refl

memory_begins : (begin_sqlite memory new_store).1 ≡ none
unfolding begin_sqlite is_config_refused
memory_begins = ground (arith, new_begins)
