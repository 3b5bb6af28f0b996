-- ===== src/HttpServer/Life/Tests.antt =====
-- httpserver/httpserver.go: a server that is started twice, fails, and is stopped.
use go_toolbelt.Base.{[], ◌∷◌, List, some}
use go_toolbelt.Base.Result.{ok}
use go_toolbelt.HttpServer.{application, serve_failed}
use go_toolbelt.HttpServer.Tests.{config, quick}
use go_toolbelt.HttpServer.Life.{
  Event, starts, ends, stops, perform_all, new_life, IsSound, serves_one_listener,
}

abbrev events : List Event
events = starts (ok 80) ∷ starts (ok 81) ∷ ends (serve_failed 3) ∷ stops quick ∷ []

serves_one_listener_example :
    let l = perform_all events (new_life config (some (application 1)) []) in
    IsSound l.server.server l.effects l.started
serves_one_listener_example = serves_one_listener events config (some (application 1)) []
