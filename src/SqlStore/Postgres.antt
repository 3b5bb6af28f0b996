-- ===== src/SqlStore/Postgres.antt =====
-- postgres/postgres.go: `New`, and whole calls of `Start` and `Stop`, which it has in common with
-- sqlite but for the check of the configuration.
mod Tests
use go_toolbelt.Base.{
  ◌+◌, ◌≡◌, ℕ, Bool, true, false, Bool-cases, inl, inr, arith, List, Option, none, some, String,
  str_eq, if◌then◌else◌,
}
use go_toolbelt.SqlStore.Connect.{Config, Outcomes}
use go_toolbelt.SqlStore.Lifecycle.{System, init, AloneReach}
use go_toolbelt.SqlStore.Lifecycle.Calls.Laws.{Started, start_store_all_or_nothing}
use go_toolbelt.SqlStore.Lifecycle.Calls.{Failure, Wait, start_store, stop_store}

-- The configuration is kept as it is.
pub new : Config → Config × System
new cfg = (cfg, init)

pub data PostgresError : Type 0 where
  dsn_required : PostgresError
  start_failed : Failure → PostgresError

pub postgres_error : Option Failure → Option PostgresError
postgres_error none = none
postgres_error (some f) = some (start_failed f)

-- An empty name of a source is refused before the lock is taken.
pub start : Config → Outcomes → System → System × Option PostgresError
unfolding postgres_error
start cfg o s =
    if str_eq cfg.dsn ""
    then (s, some dsn_required)
    else let (t, f) = start_store o s in (t, postgres_error f)

pub stop : Option ℕ → Wait → System → System × List ℕ
stop close_err w s = stop_store close_err w s

Started-live :
    (s t : System) (f : Option Failure)
    → Started s t f
    → postgres_error f ≡ none
    → (t.store.live ≡ true) × (t.open_dbs ≡ 1)
unfolding postgres_error
Started-live s t none (_, up, one) e = (up, one)
Started-live s t (some f) h e = ground arith

-- Where no other `Start` is under way, a `Start` that returns nil was given the name of a source, and has opened the only database that is
-- open.
start_opens_one :
    (cfg : Config) (o : Outcomes) (s : System)
    → AloneReach s
    → s.opening + s.holding ≡ 0
    → (start cfg o s).1 ≡ none
    → (str_eq cfg.dsn "" ≡ false)
      × ((start cfg o s).0.store.live ≡ true)
      × ((start cfg o s).0.open_dbs ≡ 1)
unfolding start
start_opens_one cfg o s r q e = elim (Bool-cases (str_eq cfg.dsn "")) [
  | inl d ↦ ground arith
  | inr d ↦
      let h = (start_store_all_or_nothing o s r q).1 in
      let p = Started-live s (start_store o s).0 (start_store o s).1 h in ground arith
]
