-- ===== src/Process/Events/Tests.antt =====
-- process/process.go: a run with two chunks that ends with the exit code 7.
use go_toolbelt.Base.{[], ◌∷◌, none, some}
use go_toolbelt.Process.Events.{Launch, running, stdout, stderr}

abbrev launch : Launch
launch =
    running 42 ((stdout, 1 ∷ 2 ∷ []) ∷ (stderr, 3 ∷ []) ∷ [])
      (record { wait_err = some 1; exit_code = some 7; ctx_err = none })
