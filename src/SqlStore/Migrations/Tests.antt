-- ===== src/SqlStore/Migrations/Tests.antt =====
-- sqlite/sqlite.go: `runMigrations` on a database that keeps the texts of the statements.
use go_toolbelt.Base.{ℕ, ◌≡◌, refl, str_eq, String, List, [], ◌∷◌, none, some, if◌then◌else◌, arith}
use go_toolbelt.Base.Result.{Result, ok, err}
use go_toolbelt.SqlStore.Migrations.{
  Database, exec_failed, finish_commit, exec_all, run_migrations, effects, IsAtomic,
  run_migrations-IsAtomic,
}

-- The statement "bad" fails.
abbrev exec_text : String → List String × List String → Result ℕ (List String × List String)
exec_text m (s, seen) = if str_eq m "bad" then err 1 else ok (s, m ∷ seen)

exec_text_view :
    (m : String) (t t' : List String × List String)
    → exec_text m t ≡ ok t'
    → (t'.0 ≡ t.0) × (t'.1 ≡ m ∷ t.1)
exec_text_view m (s, seen) t' h = ground arith

begins :
    (s : List String) (t : List String × List String)
    → ◌≡◌ {A = Result ℕ (List String × List String)} (ok (s, s)) (ok t)
    → (t.0 ≡ s) × (t.1 ≡ s)
begins s t h = ground arith

abbrev texts : Database
texts = record {
  State = List String;
  Tx = List String × List String;
  begin = λ s. ok (s, s);
  exec = exec_text;
  commit = λ t. (none, t.1);
  rollback = λ t. (some 9, t.0);
  origin = λ t. t.0;
  view = λ t. t.1;
  effect = λ m s. m ∷ s;
  begin-origin = begins;
  exec-view = exec_text_view;
  commit-view = λ t h. refl;
  rollback-origin = λ t. refl;
}

-- The second statement fails, and so does the rollback.
failing : run_migrations texts ("a" ∷ "bad" ∷ []) [] ≡ (err (exec_failed 1 (some 9)), [])
unfolding run_migrations exec_all finish_commit
failing = refl

run_migrations-IsAtomic_example :
    IsAtomic texts
      (run_migrations texts ("a" ∷ "bad" ∷ []) []).0
      []
      (effects texts ("a" ∷ "bad" ∷ []) [])
      (run_migrations texts ("a" ∷ "bad" ∷ []) []).1
run_migrations-IsAtomic_example = run_migrations-IsAtomic texts ("a" ∷ "bad" ∷ []) []
