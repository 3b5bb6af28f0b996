-- ===== src/LocalGateway/Server.antt =====
-- localgateway/gateway.go: `Server.Start` and `Server.Stop`. What the listener, net/http and the
-- removal of the endpoint return is an argument. A call of `Stop` is one step here: it returns when
-- the serving goroutine and every entered handler have ended (LocalGateway/Gate.antt).
pub mod Laws
mod Tests
use go_toolbelt.Base.{
  ℕ, Bool, true, false, ◌||◌, String, List, [], ◌∷◌, ◌++◌, Option, none, some, if◌then◌else◌,
  str_eq,
}
use go_toolbelt.Base.Result.{Result, ok, err}
use go_toolbelt.LocalGateway.Gate.{HandlerGate, open_gate, stop}

pub record Server : Type 0 where
  pub endpoint : String
  -- `server != nil`, and with it `listener` and `serveDone`
  pub started : Bool
  -- `cleanup != nil`
  pub cleanup : Bool
  pub stopping : Bool
  pub stopped : Bool
  pub handlers : HandlerGate
  pub serve_err : Option ℕ

abbrev pub new_server : String → Server
new_server endpoint = record {
  endpoint = endpoint;
  started = false;
  cleanup = false;
  stopping = false;
  stopped = false;
  handlers = open_gate;
  serve_err = none;
}

pub data StartError : Type 0 where
  is_stopped already_started endpoint_required : StartError
  listen_failed : ℕ → StartError

-- What `Start` and `Stop` do outside the server's own state.
pub data Effect : Type 0 where
  listen shut_down force_close close_listener : Effect
  -- a service, and whether its endpoint came with a cleanup
  serve : Bool → Effect
  -- the removal of the endpoint, and whether it succeeded
  remove_endpoint : Bool → Effect

-- The first argument is what `listenLocal` returns: an error, or whether there is a cleanup, which is
-- so on Unix and not on Windows.
pub start : Result ℕ Bool → Server → Server × Option StartError × List Effect
start listened s =
    if s.stopping || s.stopped
    then (s, some is_stopped, [])
    else if s.started
    then (s, some already_started, [])
    else if str_eq s.endpoint ""
    then (s, some endpoint_required, [])
    else elim listened [
      | err e ↦ (s, some (listen_failed e), listen ∷ [])
      | ok c ↦ (record s { started = true; cleanup = c }, none, listen ∷ serve c ∷ [])
    ]

-- The serving goroutine ends with an error other than `http.ErrServerClosed`.
pub serve_failed : ℕ → Server → Server
serve_failed e s = if s.started then record s { serve_err = some e } else s

pub data CloseError : Type 0 where
  already_closed : CloseError
  close_failed : ℕ → CloseError

-- What the calls that `Stop` makes return.
pub record Outcomes : Type 0 where
  pub shutdown_err : Option ℕ
  pub close_err : Option ℕ
  pub listener_err : Option CloseError
  pub cleanup_err : Option ℕ

-- `errors.Join`, by the errors that are not nil; no error is nil.
abbrev pub joined : Option ℕ → List ℕ
joined none = []
joined (some e) = e ∷ []

pub shutdown_errors : Bool → Outcomes → List ℕ
shutdown_errors false o = []
shutdown_errors true o =
    (elim o.shutdown_err [ none ↦ [] | some e ↦ e ∷ joined o.close_err ]) ++ (elim o.listener_err [
      | none ↦ []
      | some already_closed ↦ []
      | some (close_failed e) ↦ e ∷ []
    ])

pub shutdown_effects : Bool → Outcomes → List Effect
shutdown_effects false o = []
shutdown_effects true o = elim o.shutdown_err [
  | none ↦ shut_down ∷ close_listener ∷ []
  | some e ↦ shut_down ∷ force_close ∷ close_listener ∷ []
]

pub cleanup_errors : Bool → Outcomes → List ℕ
cleanup_errors false o = []
cleanup_errors true o = joined o.cleanup_err

pub cleanup_effects : Bool → Outcomes → List Effect
cleanup_effects false o = []
cleanup_effects true o = elim o.cleanup_err [
  | none ↦ remove_endpoint true ∷ []
  | some e ↦ remove_endpoint false ∷ []
]

-- `s.cleanup` behind the call: kept for the next `Stop` if the removal failed.
pub cleanup_after : Bool → Outcomes → Bool
cleanup_after false o = false
cleanup_after true o = elim o.cleanup_err [ none ↦ false | some e ↦ true ]

abbrev pub is_nil : List ℕ → Bool
is_nil [] = true
is_nil (e ∷ es) = false

-- The errors that `Stop` joins; the list is empty if it returns nil.
pub stop_server : Outcomes → Server → Server × List ℕ × List Effect
unfolding stop shutdown_errors shutdown_effects cleanup_errors cleanup_effects cleanup_after
stop_server o s =
    let errors =
      shutdown_errors s.started o ++ (cleanup_errors s.cleanup o ++ joined s.serve_err) in
    if s.stopped then (s, [], []) else (
      record s {
        stopping = true;
        handlers = stop s.handlers;
        cleanup = cleanup_after s.cleanup o;
        stopped = is_nil errors;
      },
      errors,
      shutdown_effects s.started o ++ cleanup_effects s.cleanup o,
    )

pub data Call : Type 0 where
  starts : Result ℕ Bool → Call
  fails : ℕ → Call
  stops : Outcomes → Call

pub perform : Call → Server → Server × List Effect
unfolding start serve_failed stop_server
perform (starts e) s = let (s', refused, effects) = start e s in (s', effects)
perform (fails e) s = (serve_failed e s, [])
perform (stops o) s = let (s', errs, effects) = stop_server o s in (s', effects)

-- The calls of a server's life, one after another, and all their effects.
pub run : List Call → Server → Server × List Effect
unfolding perform
run [] s = (s, [])
run (c ∷ cs) s = let first = perform c s in let rest = run cs first.0 in (rest.0, first.1 ++ rest.1)
