-- ===== src/HttpServer/Echo/Tests.antt =====
-- echoserver/echoserver.go: an echo server that is started once more.
use go_toolbelt.Base.{◌≡◌, refl, [], ◌∷◌, none}
use go_toolbelt.Base.Result.{ok}
use go_toolbelt.HttpServer.{
  apply_options, new, start, listen_and_serve, serve, shut_down, stop, stop_serving,
}
use go_toolbelt.HttpServer.Echo.{EchoServer, new_echo, new_transport, start_echo, stop_echo}
use go_toolbelt.HttpServer.Tests.{config, quick}

abbrev started_echo : EchoServer
started_echo = (start_echo 1 (ok 80) (new_echo config)).0

echo_stops : stop_echo quick started_echo ≡ ([], shut_down 80 ∷ [])
unfolding stop_echo start_echo new_echo new_transport start new apply_options listen_and_serve serve
    stop stop_serving
echo_stops = refl

has_no_listener : started_echo.listener ≡ none
unfolding start_echo new_echo
has_no_listener = refl
