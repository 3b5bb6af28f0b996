-- ===== src/HttpServer/Echo.antt =====
-- echoserver/echoserver.go: `Server`, which makes an HTTP server of httpserver for each `Start`. The
-- router is known by a number.
mod Tests
use go_toolbelt.Base.{ℕ, ◌≡◌, refl, List, [], ◌∷◌, Option, none, some}
use go_toolbelt.Base.Result.{Result, err}
use go_toolbelt.HttpServer.{
  Config, application, Server, OptionFn, with_listener, apply_options, default_addr, new,
  StartError, listen_failed, start, listen_and_serve, Outcomes, Effect, stop,
}

pub record EchoServer : Type 0 where
  pub cfg : Config
  pub listener : Option ℕ
  pub transport : Option Server

pub new_echo : Config → EchoServer
new_echo cfg = record {
  cfg = record cfg { addr = default_addr cfg.addr };
  listener = none;
  transport = none;
}

abbrev listener_options : Option ℕ → List OptionFn
listener_options none = []
listener_options (some l) = with_listener (some l) ∷ []

-- `httpserver.New` for a router.
pub new_transport : ℕ → EchoServer → Server
unfolding new
new_transport router s = new s.cfg (some (application router)) (listener_options s.listener)

pub start_echo : ℕ → Result ℕ ℕ → EchoServer → EchoServer × Option StartError
unfolding new_transport start
start_echo router listened s =
    let (t, e) = start listened (new_transport router s) in (record s { transport = some t }, e)

pub stop_echo : Outcomes → EchoServer → List ℕ × List Effect
unfolding stop
stop_echo o s = elim s.transport [ none ↦ ([], []) | some t ↦ stop o t ]

-- A `Start` whose listening fails leaves a server that `Stop` does not touch: whatever was started
-- before, `Stop` then returns nil and shuts nothing down.
failed_start_forgets :
    (router e : ℕ) (o : Outcomes) (s : EchoServer)
    → s.listener ≡ none
    → ((start_echo router (err e) s).1 ≡ some (listen_failed e))
      × (stop_echo o (start_echo router (err e) s).0 ≡ ([], []))
unfolding start_echo stop_echo new_transport new apply_options start listen_and_serve stop
failed_start_forgets router e o s h = rw h (refl, refl)
