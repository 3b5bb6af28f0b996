-- ===== src/HttpServer/Tests.antt =====
-- httpserver/httpserver.go: a server that was started and then failed.
use go_toolbelt.Base.{◌≡◌, refl, [], ◌∷◌, none, some}
use go_toolbelt.Base.Int.{pos}
use go_toolbelt.Base.Result.{ok}
use go_toolbelt.HttpServer.{
  Config, Server, application, apply_options, new, start, listen_and_serve, serve, served,
  serve_failed, Outcomes, shut_down, stop, stop_serving,
}

abbrev pub config : Config
config = record {
  addr = "";
  read_timeout = pos 0;
  read_header_timeout = pos 5;
  write_timeout = pos 0;
  idle_timeout = pos 60;
}

abbrev failing : Server
failing = (served (serve_failed 3) (start (ok 80) (new config (some (application 1)) [])).0).0

abbrev pub quick : Outcomes
quick = record { shutdown_err = none; close_err = some 9; ctx_err = none }

failure_reported : stop quick failing ≡ (3 ∷ [], shut_down 80 ∷ [])
unfolding stop served start new apply_options listen_and_serve serve stop_serving
failure_reported = refl
