-- ===== src/SqlStore/Migrations.antt =====
-- sqlite/sqlite.go and postgres/postgres.go: `runMigrations`. A database with transactions
-- (database/sql) is a parameter, with what its documentation says of `Commit` and `Rollback`.
mod Tests
use go_toolbelt.Base.{
  ℕ, ◌≡◌, refl, sym, ap, subst, String, List, [], ◌∷◌, Option, none, some, inl, inr,
}
use go_toolbelt.Base.Result.{Result, ok, err, Result-cases}

pub record Database : Type 1 where
  pub State : Type 0
  pub Tx : Type 0
  pub begin : State → Result ℕ Tx
  pub exec : String → Tx → Result ℕ Tx
  -- The error, and the database behind the call.
  pub commit : Tx → Option ℕ × State
  pub rollback : Tx → Option ℕ × State
  -- Where the transaction began, and what it sees.
  pub origin : Tx → State
  pub view : Tx → State
  -- What a statement does to what a transaction sees.
  pub effect : String → State → State
  pub begin-origin : (s : State) (t : Tx) → begin s ≡ ok t → (origin t ≡ s) × (view t ≡ s)
  pub exec-view :
      (m : String) (t t' : Tx)
      → exec m t ≡ ok t'
      → (origin t' ≡ origin t) × (view t' ≡ effect m (view t))
  -- A commit that succeeds keeps what the transaction has done. Nothing is said of one that fails.
  pub commit-view : (t : Tx) → (commit t).0 ≡ none → (commit t).1 ≡ view t
  -- What is not committed is not kept: the documentation says so of a rollback that fails, too.
  pub rollback-origin : (t : Tx) → (rollback t).1 ≡ origin t

pub data MigrationError : Type 0 where
  begin_failed commit_failed : ℕ → MigrationError
  -- the statement's error, joined with that of the rollback
  exec_failed : ℕ → Option ℕ → MigrationError

module _ (d : Database) where
  open d use {
    State, Tx, begin, exec, commit, rollback, origin, view, effect, begin-origin, exec-view,
    commit-view, rollback-origin,
  }

  pub finish_commit : Option ℕ × State → Result MigrationError (Unit {0}) × State
  finish_commit (none, s) = (ok tt, s)
  finish_commit (some e, s) = (err (commit_failed e), s)

  pub exec_all : List String → Tx → Result MigrationError (Unit {0}) × State
  unfolding finish_commit
  exec_all [] t = finish_commit (commit t)
  exec_all (m ∷ ms) t = elim (exec m t) [
    | ok t' ↦ exec_all ms t'
    | err e ↦ (err (exec_failed e (rollback t).0), (rollback t).1)
  ]

  pub run_migrations : List String → State → Result MigrationError (Unit {0}) × State
  unfolding exec_all
  run_migrations [] s = (ok tt, s)
  run_migrations (m ∷ ms) s = elim (begin s) [
    | ok t ↦ exec_all (m ∷ ms) t
    | err e ↦ (err (begin_failed e), s)
  ]

  -- All the statements, one after another.
  abbrev pub effects : List String → State → State
  effects [] s = s
  effects (m ∷ ms) s = effects ms (effect m s)

  -- What a result promises of the database. After a `Commit` with an error it is what that call has
  -- left, of a transaction that began at the database as it was and had executed all the statements.
  abbrev pub IsAtomic : Result MigrationError (Unit {0}) → State → State → State → Type 0
  IsAtomic (ok u) before whole after = after ≡ whole
  IsAtomic (err (begin_failed e)) before whole after = after ≡ before
  IsAtomic (err (exec_failed e r)) before whole after = after ≡ before
  IsAtomic (err (commit_failed e)) before whole after =
      (t : Tx) × (origin t ≡ before) × (view t ≡ whole) × (commit t ≡ (some e, after))

  finish_commit-IsAtomic :
      (t : Tx) (r : Option ℕ)
      → (commit t).0 ≡ r
      → IsAtomic (finish_commit (r, (commit t).1)).0 (origin t) (view t) (commit t).1
  unfolding finish_commit
  finish_commit-IsAtomic t none e = commit-view t e
  finish_commit-IsAtomic t (some x) e = (t, refl, refl, ap (λ r. (r, (commit t).1)) e)

  finish_commit_state : (r : Option ℕ) (s : State) → (finish_commit (r, s)).1 ≡ s
  unfolding finish_commit
  finish_commit_state none s = refl
  finish_commit_state (some e) s = refl

  exec_all-IsAtomic :
      (ms : List String) (t : Tx)
      → IsAtomic (exec_all ms t).0 (origin t) (effects ms (view t)) (exec_all ms t).1
  unfolding exec_all
  exec_all-IsAtomic [] t =
      rw (finish_commit_state (commit t).0 (commit t).1)
        (finish_commit-IsAtomic t (commit t).0 refl)
  exec_all-IsAtomic (m ∷ ms) t = elim (Result-cases (exec m t)) [
    | inl (t', p) ↦
        let (same, seen) = exec-view m t t' p in
        rw (p, exec_all) (rw (sym same, sym seen) (exec_all-IsAtomic ms t'))
    | inr (e, p) ↦ rw (p, exec_all) (rollback-origin t)
  ]

  -- When `runMigrations` returns nil, the database is as if all the statements had been executed in
  -- their order; when it returns the error of `BeginTx` or of a statement, whether the rollback fails
  -- or not, the database is as it was; and when it returns the error of `Commit`, that is the one
  -- `Commit` of a transaction that began at the database as it was and had executed all the
  -- statements, and the database is what that call has left.
  pub run_migrations-IsAtomic :
      (ms : List String) (s : State)
      → IsAtomic (run_migrations ms s).0 s (effects ms s) (run_migrations ms s).1
  unfolding run_migrations
  run_migrations-IsAtomic [] s = refl
  run_migrations-IsAtomic (m ∷ ms) s = elim (Result-cases (begin s)) [
    | inl (t, p) ↦
        let (from, seen) = begin-origin s t p in
        let r = exec_all (m ∷ ms) t in
        rw (p, run_migrations)
          (subst (λ x. IsAtomic r.0 x (effects (m ∷ ms) s) r.1) from
            (subst (λ v. IsAtomic r.0 (origin t) (effects (m ∷ ms) v) r.1) seen
              (exec_all-IsAtomic (m ∷ ms) t)))
    | inr (e, p) ↦ rw (p, run_migrations) refl
  ]
