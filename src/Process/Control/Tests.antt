-- ===== src/Process/Control/Tests.antt =====
-- process/process.go: a `Spec` with a path and a timeout of its own.
use go_toolbelt.Base.{◌≡◌, refl, [], ◌∷◌, some}
use go_toolbelt.Base.Int.{pos, negsuc}
use go_toolbelt.Process.Env.{merge_env}
use go_toolbelt.Process.Control.{Spec, prepare, kill_timeout_of, default_kill_timeout}

abbrev sleep : Spec
sleep = record {
  path = "/bin/sleep";
  args = "60" ∷ [];
  dir = "";
  env = [];
  timeout = pos 5;
  kill_timeout = negsuc 0;
}

sleep_prepared :
    prepare ("HOME=/" ∷ []) sleep
    ≡ some (record {
      path = "/bin/sleep";
      args = "60" ∷ [];
      dir = "";
      env = merge_env ("HOME=/" ∷ []) [];
      deadline = some (pos 5);
      wait_delay = default_kill_timeout;
    })
unfolding prepare kill_timeout_of
sleep_prepared = refl
