-- ===== src/Jobs/Commands/Routes.antt =====
-- examples/advanced-jobs/main.go: the routes that `JobHTTP.Start` registers, the requests that they
-- serve, and `JobCLI.Start`. Echo, which finds the route of a request, is a parameter: a request comes
-- with its endpoint. A stream is known by its file descriptor.
use go_toolbelt.Base.{ℕ, Bool, true, false, String, List, [], ◌∷◌, Option, none, some}
use go_toolbelt.Base.Int.{ℤ}
use go_toolbelt.Jobs.Manager.{System, call_start, Steps, here, next}
use go_toolbelt.Jobs.Commands.{
  Line, banner, Response, call_start_job, list_handler, start_response, start_handler,
  cancel_response, cancel_handler,
}
use go_toolbelt.Jobs.Commands.Laws.{Steps-trans, call_cancel_job-Steps}

pub data Method : Type 0 where
  get post delete : Method

pub data Endpoint : Type 0 where
  list_jobs start_job cancel_job health shutdown : Endpoint

pub record Route : Type 0 where
  pub method : Method
  pub path : String
  pub endpoint : Endpoint

-- The group has the prefix `/api`.
pub routes : List Route
routes =
    record { method = get; path = "/api/jobs"; endpoint = list_jobs }
    ∷ record { method = post; path = "/api/jobs"; endpoint = start_job }
    ∷ record { method = delete; path = "/api/jobs/:id"; endpoint = cancel_job }
    ∷ record { method = get; path = "/health"; endpoint = health }
    ∷ record { method = post; path = "/shutdown"; endpoint = shutdown }
    ∷ []

-- The parameter `id` of the path, and what `Bind` gives: an error, or the text of the duration.
pub record Request : Type 0 where
  pub endpoint : Endpoint
  pub id : String
  pub bind_err : Option ℕ
  pub duration : String

pub data Answer : Type 0 where
  response : Response → Answer
  ok_empty shutting_down : Answer

module _ (parse_duration atoi : String → Option ℤ) where
  abbrev respond : System × Response → System × Answer × Bool
  respond (s, r) = (s, response r, false)

  -- The manager behind a request, the answer, and whether the shutdown is requested.
  pub serve_endpoint : Endpoint → Request → System → System × Answer × Bool
  unfolding list_handler start_handler cancel_handler
  serve_endpoint list_jobs r s = respond (s, list_handler parse_duration atoi s)
  serve_endpoint start_job r s = respond (start_handler parse_duration atoi r.bind_err r.duration s)
  serve_endpoint cancel_job r s = respond (cancel_handler parse_duration atoi r.id s)
  serve_endpoint health r s = (s, ok_empty, false)
  serve_endpoint shutdown r s = (s, shutting_down, true)

  pub serve_all : List Request → System → System
  unfolding serve_endpoint
  serve_all [] s = s
  serve_all (r ∷ rs) s = serve_all rs (serve_endpoint r.endpoint r s).0

  start_response-Steps :
      (d : Option ℤ) (s : System) → Steps s (start_response parse_duration atoi d s).0
  unfolding start_response call_start_job
  start_response-Steps none s = here
  start_response-Steps (some d) s = next here (call_start d)

  cancel_response-Steps :
      (i : Option ℤ) (s : System) → Steps s (cancel_response parse_duration atoi i s).0
  unfolding cancel_response
  cancel_response-Steps none s = here
  cancel_response-Steps (some i) s = call_cancel_job-Steps parse_duration atoi i s

  start_handler-Steps :
      (e : Option ℕ) (text : String) (s : System)
      → Steps s (start_handler parse_duration atoi e text s).0
  unfolding start_handler
  start_handler-Steps (some e) text s = here
  start_handler-Steps none text s = start_response-Steps _ s

  serve_endpoint-Steps :
      (e : Endpoint) (r : Request) (s : System) → Steps s (serve_endpoint e r s).0
  unfolding serve_endpoint cancel_handler
  serve_endpoint-Steps list_jobs r s = here
  serve_endpoint-Steps start_job r s = start_handler-Steps r.bind_err r.duration s
  serve_endpoint-Steps cancel_job r s = cancel_response-Steps (atoi r.id) s
  serve_endpoint-Steps health r s = here
  serve_endpoint-Steps shutdown r s = here

  -- Whatever is requested over HTTP, the manager changes only by calls of `StartJob` and `CancelJob`:
  -- its state behind any requests is one that steps of the manager reach.
  serve_all-Steps : (rs : List Request) (s : System) → Steps s (serve_all rs s)
  unfolding serve_all
  serve_all-Steps [] s = here
  serve_all-Steps (r ∷ rs) s =
      let s' = (serve_endpoint r.endpoint r s).0 in
      Steps-trans s s' _ (serve_endpoint-Steps r.endpoint r s) (serve_all-Steps rs s')

pub record JobCli : Type 0 where
  pub input : Option ℕ
  pub output : Option ℕ

abbrev or_fd : ℕ → Option ℕ → Option ℕ
or_fd fd none = some fd
or_fd fd (some s) = some s

-- `JobCLI.Start`: the streams, and what it prints before its goroutine runs.
pub start_cli : JobCli → JobCli × List Line
start_cli c = (record { input = or_fd 0 c.input; output = or_fd 1 c.output }, banner ∷ [])
