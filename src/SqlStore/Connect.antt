-- ===== src/SqlStore/Connect.antt =====
-- sqlite/sqlite.go and postgres/postgres.go: the middle of `Start`, outside the mutex, which opens,
-- configures, tries and migrates a database, and `closeAfterStartError`. What the calls return is an
-- argument.
pub mod Tests
use go_toolbelt.Base.{ℕ, Bool, not, String, List, [], ◌∷◌, ◌++◌, Option, none, some, if◌then◌else◌}
use go_toolbelt.Base.Int.{ℤ, is_nonpositive}
use go_toolbelt.Base.Result.{Result, ok, err}
use go_toolbelt.SqlStore.Migrations.{MigrationError}

pub record Config : Type 0 where
  pub dsn : String
  pub max_open_conns : ℤ
  pub max_idle_conns : ℤ
  pub max_idle_time : ℤ

-- A call that configures the pool of connections.
pub data Setting : Type 0 where
  set_max_open_conns set_max_idle_conns set_conn_max_idle_time : ℤ → Setting

abbrev pub is_positive : ℤ → Bool
is_positive n = not (is_nonpositive n)

unfoldable pub settings : Config → List Setting
settings cfg =
    (if is_positive cfg.max_open_conns then set_max_open_conns cfg.max_open_conns ∷ [] else [])
    ++ ((if is_positive cfg.max_idle_conns then set_max_idle_conns cfg.max_idle_conns ∷ [] else [])
        ++ (if is_positive cfg.max_idle_time
            then set_conn_max_idle_time cfg.max_idle_time ∷ []
            else []))

pub data StartFailure : Type 0 where
  ping_failed migrate_failed : ℕ → StartFailure
  migrations_failed : MigrationError → StartFailure

-- What the calls return. The migrator, where there is one, is the application's.
pub record Outcomes : Type 0 where
  pub open_err : Option ℕ
  pub ping_err : Option ℕ
  pub migrations : Result MigrationError (Unit {0})
  pub migrator : Option (Option ℕ)
  pub close_err : Option ℕ

-- The calls that change how many databases are open: the `Open` that succeeds, and `db.Close`.
pub data DbCall : Type 0 where
  open_db close_db : DbCall

-- How it ends: with an open database, with none, or with one that was closed again.
pub data Connected : Type 0 where
  connected : Connected
  not_opened : ℕ → Connected
  closed_again : StartFailure → Option ℕ → Connected

pub run_migrator : Option (Option ℕ) → Option StartFailure
run_migrator none = none
run_migrator (some none) = none
run_migrator (some (some e)) = some (migrate_failed e)

-- The first of the steps that fails.
pub start_failure : Outcomes → Option StartFailure
unfolding run_migrator
start_failure o = elim o.ping_err [
  | some e ↦ some (ping_failed e)
  | none ↦ elim o.migrations [ err e ↦ some (migrations_failed e) | ok u ↦ run_migrator o.migrator ]
]

unfoldable pub open_database : Option ℕ → List DbCall
open_database none = open_db ∷ []
open_database (some e) = []

-- `closeAfterStartError`, by what `db.Close` returns.
unfoldable pub close_after_start_error : StartFailure → Option ℕ → Connected × List DbCall
close_after_start_error f close_err = (closed_again f close_err, close_db ∷ [])

-- Behind the opening.
unfoldable pub settle : Outcomes → Connected × List DbCall
unfolding start_failure close_after_start_error
settle o = elim (start_failure o) [
  | none ↦ (connected, [])
  | some f ↦ close_after_start_error f o.close_err
]

-- How the whole of it ends.
unfoldable pub connect : Outcomes → Connected
unfolding settle
connect o = elim o.open_err [ some e ↦ not_opened e | none ↦ (settle o).0 ]
