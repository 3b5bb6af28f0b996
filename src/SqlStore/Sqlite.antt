-- ===== src/SqlStore/Sqlite.antt =====
-- sqlite/sqlite.go: `New`, and the check of the configuration in `Start`. A number is ℤ, a duration
-- too.
mod Tests
use go_toolbelt.Base.{
  ◌≡◌, Bool, false, not, ◌&&◌, ◌||◌, ◌==◌, String, [], ◌∷◌, Option, none, some, str_eq, eq_iff,
  if◌then◌else◌, arith,
}
use go_toolbelt.Base.Int.{ℤ, pos, negsuc, is_zero}
use go_toolbelt.SqlStore.Connect.{
  Config, is_positive, set_max_open_conns, set_max_idle_conns, settings,
}
use go_toolbelt.SqlStore.Lifecycle.{Store, StartError, begin_start}

abbrev pub memory_dsn : String
memory_dsn = ":memory:"

pub new : Config → Config
new cfg = record cfg {
  dsn = if str_eq cfg.dsn "" then memory_dsn else cfg.dsn;
  max_open_conns = if is_zero cfg.max_open_conns then pos 1 else cfg.max_open_conns;
}

abbrev is_one : ℤ → Bool
is_one (pos n) = n == 1
is_one (negsuc n) = false

pub is_config_refused : Config → Bool
is_config_refused cfg =
    str_eq cfg.dsn memory_dsn && (not (is_one cfg.max_open_conns) || is_positive cfg.max_idle_time)

pub data SqliteError : Type 0 where
  bad_config : SqliteError
  lifecycle : StartError → SqliteError

-- `Start` up to the end of its first section.
pub begin_sqlite : Config → Store → Store × Option SqliteError
unfolding is_config_refused
begin_sqlite cfg s =
    if is_config_refused cfg
    then (s, some bad_config)
    else let (s', e) = begin_start s in (s', elim e [ none ↦ none | some x ↦ some (lifecycle x) ])

-- A store in memory that gets past the check is given a pool of exactly one connection that is never
-- closed for being idle, so that it keeps its contents; the configuration may limit the idle ones.
memory_keeps_connection :
    (cfg : Config) (s : Store)
    → (begin_sqlite cfg s).1 ≡ none
    → cfg.dsn ≡ memory_dsn
    → settings cfg
      ≡ set_max_open_conns (pos 1)
        ∷ (if is_positive cfg.max_idle_conns
            then set_max_idle_conns cfg.max_idle_conns ∷ []
            else [])
unfolding begin_sqlite settings
memory_keeps_connection cfg s h e = ground (arith, eq_iff cfg.dsn memory_dsn)
