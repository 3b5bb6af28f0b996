-- ===== src/HttpServer.antt =====
-- httpserver/httpserver.go. `Start` and `Stop` are called by the lifecycle of go-app, one at a time;
-- the serving goroutine ends at any time. What the listener and net/http return is an argument. The
-- state `serveDone` is set together with `server`.
pub mod Echo
pub mod Life
pub mod Tests
use go_toolbelt.Base.{
  ℕ, ◌≡◌, ◌⊎◌, ◌↔◌, inl, inr, refl, Bool, true, false, String, List, [], ◌∷◌, ◌++◌, Option, none,
  some, str_eq, if◌then◌else◌, arith, Option-cases,
}
use go_toolbelt.Base.Int.{ℤ}
use go_toolbelt.Base.Result.{Result, ok, err}

pub record Config : Type 0 where
  pub addr : String
  pub read_timeout : ℤ
  pub read_header_timeout : ℤ
  pub write_timeout : ℤ
  pub idle_timeout : ℤ

-- An application's handler, by a number, or `http.NotFoundHandler()`.
pub data Handler : Type 0 where
  not_found : Handler
  application : ℕ → Handler

-- An `http.Server` that serves a listener, which is known by a number.
pub record Serving : Type 0 where
  pub handler : Handler
  pub read_timeout : ℤ
  pub read_header_timeout : ℤ
  pub write_timeout : ℤ
  pub idle_timeout : ℤ
  pub listener : ℕ

pub record Server : Type 0 where
  pub cfg : Config
  pub handler : Handler
  pub listener : Option ℕ
  pub server : Option Serving
  pub logger : ℕ
  pub serve_err : Option ℕ

pub data OptionFn : Type 0 where
  with_listener with_logger : Option ℕ → OptionFn

pub apply_option : OptionFn → Server → Server
apply_option (with_listener l) s = record s { listener = l }
apply_option (with_logger none) s = s
apply_option (with_logger (some logger)) s = record s { logger = logger }

pub apply_options : List OptionFn → Server → Server
unfolding apply_option
apply_options [] s = s
apply_options (o ∷ os) s = apply_options os (apply_option o s)

abbrev pub default_addr : String → String
default_addr addr = if str_eq addr "" then ":8080" else addr

-- The logger 0 is `slog.Default()`.
pub new : Config → Option Handler → List OptionFn → Server
unfolding apply_options
new cfg handler os = apply_options os (record {
  cfg = record cfg { addr = default_addr cfg.addr };
  handler = elim handler [ none ↦ not_found | some h ↦ h ];
  listener = none;
  server = none;
  logger = 0;
  serve_err = none;
})

-- `Addr`, by the listener that it asks.
pub addr : Server → Option ℕ
addr s = s.listener

pub data StartError : Type 0 where
  already_started : StartError
  listen_failed : ℕ → StartError

pub serve : ℕ → Server → Server
serve l s = record s {
  listener = some l;
  server = some (record {
    handler = s.handler;
    read_timeout = s.cfg.read_timeout;
    read_header_timeout = s.cfg.read_header_timeout;
    write_timeout = s.cfg.write_timeout;
    idle_timeout = s.cfg.idle_timeout;
    listener = l;
  });
}

-- The listener is the given one, or that of `net.Listen`.
pub listen_and_serve : Result ℕ ℕ → Server → Server × Option StartError
unfolding serve
listen_and_serve listened s = elim s.listener [
  | some l ↦ (serve l s, none)
  | none ↦ elim listened [ ok l ↦ (serve l s, none) | err e ↦ (s, some (listen_failed e)) ]
]

pub start : Result ℕ ℕ → Server → Server × Option StartError
unfolding listen_and_serve
start listened s = elim s.server [
  | some running ↦ (s, some already_started)
  | none ↦ listen_and_serve listened s
]

-- How `Serve` ends.
pub data ServeEnd : Type 0 where
  ended_well server_closed : ServeEnd
  serve_failed : ℕ → ServeEnd

-- The end of the serving goroutine, and whether it asks the application to shut down.
pub served : ServeEnd → Server → Server × Bool
served ended_well s = (s, false)
served server_closed s = (s, false)
served (serve_failed e) s = (record s { serve_err = some e }, true)

-- What the calls of `Stop` return, and the error of the context if it is done before the goroutine.
pub record Outcomes : Type 0 where
  pub shutdown_err : Option ℕ
  pub close_err : Option ℕ
  pub ctx_err : Option ℕ

pub data Effect : Type 0 where
  -- by the listener
  shut_down force_close : ℕ → Effect

abbrev pub joined : Option ℕ → List ℕ
joined none = []
joined (some e) = e ∷ []

-- The error of `Shutdown`, then that of the context; `Close` is called only where `Shutdown` fails.
pub stop_serving : Outcomes → Option ℕ → Serving → List ℕ × List Effect
stop_serving o serve_err h = elim o.shutdown_err [
  | none ↦ (joined o.ctx_err ++ joined serve_err, shut_down h.listener ∷ [])
  | some e ↦ (
    (e ∷ joined o.ctx_err) ++ (joined o.close_err ++ joined serve_err),
    shut_down h.listener ∷ force_close h.listener ∷ [],
  )
]

-- The errors that `Stop` joins, none for nil, and what it does; the server stays as it is.
pub stop : Outcomes → Server → List ℕ × List Effect
unfolding stop_serving
stop o s = elim s.server [ none ↦ ([], []) | some h ↦ stop_serving o s.serve_err h ]

stop_serving_nil :
    (o : Outcomes) (e : Option ℕ) (h : Serving)
    → ((stop_serving o e h).0 ≡ []) ↔ ((o.shutdown_err ≡ none) × (o.ctx_err ≡ none) × (e ≡ none))
unfolding stop_serving
stop_serving_nil o e h = ((λ p. ground arith), λ p. ground arith)

-- `Stop` returns nil exactly if the server was never started, or the shutdown succeeds, the serving
-- goroutine ends before the context is done, and serving has not failed.
http_stop_nil_iff :
    (o : Outcomes) (s : Server)
    → ((stop o s).0 ≡ [])
      ↔ ((s.server ≡ none) ⊎ ((o.shutdown_err ≡ none) × (o.ctx_err ≡ none) × (s.serve_err ≡ none)))
unfolding stop
http_stop_nil_iff o s = elim (Option-cases s.server) [
  | inl p ↦ rw p ((λ h. inl refl), λ h. refl)
  | inr (h, p) ↦ rw p (
    (λ z. inr ((stop_serving_nil o s.serve_err h).0 z)),
    λ z. elim z [ inl q ↦ absurd cc | inr q ↦ (stop_serving_nil o s.serve_err h).1 q ],
  )
]
