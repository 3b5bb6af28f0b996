-- ===== src/LocalGateway/Server/Tests.antt =====
-- localgateway/gateway.go: the life of one server, whose first removal of the endpoint fails.
use go_toolbelt.Base.{◌≤◌, ◌≡◌, ◌↔◌, refl, true, false, List, [], ◌∷◌, none, some}
use go_toolbelt.Base.Result.{ok}
use go_toolbelt.Base.Int.{pos, negsuc}
use go_toolbelt.LocalGateway.Config.{Config, default_config}
use go_toolbelt.LocalGateway.Gate.{stop}
use go_toolbelt.LocalGateway.Server.{
  Server, new_server, start, Outcomes, already_closed, cleanup_effects, cleanup_errors,
  cleanup_after, shutdown_effects, shutdown_errors, stop_server, Call, starts, stops, perform, run,
}
use go_toolbelt.LocalGateway.Server.Laws.{
  serves, cleanups, removals, serves_and_removes_once, ClosedWell, stop_nil_iff,
}

abbrev all_well : Outcomes
all_well = record {
  shutdown_err = none;
  close_err = none;
  listener_err = some already_closed;
  cleanup_err = none;
}

abbrev removal_fails : Outcomes
removal_fails = record all_well { cleanup_err = some 13 }

abbrev calls : List Call
calls =
    starts (ok true) ∷ stops removal_fails ∷ stops all_well ∷ stops all_well ∷ starts (ok true) ∷ []

abbrev started_server : Server
started_server = record (new_server "gateway.sock") { started = true; cleanup = true }

one_of_each :
    (serves (run calls (new_server "gateway.sock")).1 ≡ 1)
    × (removals (run calls (new_server "gateway.sock")).1 ≡ 1)
unfolding run perform start stop_server stop shutdown_effects shutdown_errors cleanup_effects
    cleanup_errors cleanup_after
one_of_each = (refl, refl)

-- On Windows there is no cleanup: one service and no removal.
no_removal :
    (serves (run (starts (ok false) ∷ stops all_well ∷ []) (new_server "pipe")).1 ≡ 1)
    × (removals (run (starts (ok false) ∷ stops all_well ∷ []) (new_server "pipe")).1 ≡ 0)
unfolding run perform start stop_server stop shutdown_effects shutdown_errors cleanup_effects
    cleanup_errors cleanup_after
no_removal = (refl, refl)

serves_and_removes_once_example :
    let (s, effects) = run calls (new_server "gateway.sock") in
    (serves effects ≤ 1)
    × (cleanups effects ≤ serves effects)
    × (removals effects ≤ cleanups effects)
    × (s.cleanup ≡ false → removals effects ≡ cleanups effects)
serves_and_removes_once_example = serves_and_removes_once "gateway.sock" calls

stop_nil_iff_example : ((stop_server all_well started_server).1 ≡ []) ↔ (
    (started_server.started ≡ true
      → (all_well.shutdown_err ≡ none) × ClosedWell all_well.listener_err)
    × (started_server.cleanup ≡ true → all_well.cleanup_err ≡ none)
    × (started_server.serve_err ≡ none))
stop_nil_iff_example = stop_nil_iff all_well started_server refl

stops_well : (stop_server all_well started_server).1 ≡ []
unfolding stop_server shutdown_errors cleanup_errors
stops_well = refl

abbrev odd_config : Config
odd_config = record (default_config "gateway.sock") {
  max_header_bytes = negsuc 4;
  pipe_input_buffer_bytes = pos 99_999_999;
}
