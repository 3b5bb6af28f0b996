-- ===== src/Jobs/Commands.antt =====
-- examples/advanced-jobs/main.go: `JobCLI` and `JobHTTP`, over the job manager. `time.ParseDuration`
-- and `strconv.Atoi` are parameters. What is printed is a list of lines, and a response is told by
-- its status and body; `scanLines` is the list of inputs that it delivers.
pub mod Laws
pub mod Routes
mod Tests
use Prim.Native.Char.{code}
use go_toolbelt.Base.{
  ℕ, ◌+◌, Bool, true, false, ◌||◌, ◌==◌, String, List, [], ◌∷◌, ◌++◌, Option, none, some, str_eq,
  if◌then◌else◌,
}
use go_toolbelt.Base.Int.{ℤ, pos, negsuc}
use go_toolbelt.Base.Words.{fields, is_blank}
use go_toolbelt.Jobs.Manager.{Job, StartedJob, start_job, cancel_job, System, started, signaled}
use go_toolbelt.Jobs.Manager.Listing.{sort_jobs}

-- 10 * time.Second
abbrev pub default_duration : ℤ
default_duration = pos 10_000_000_000

pub data Line : Type 0 where
  invalid_duration invalid_id usage_cancel help banner : Line
  started_job : ℕ → Line
  listed : Job → Line
  cancel_result : ℤ → Bool → Line
  input_failed : ℕ → Line

pub listing : List Job → List Line
listing [] = []
listing (j ∷ js) = listed j ∷ listing js

-- A call of `StartJob`, and of `CancelJob` with an `int`.
pub call_start_job : ℤ → System → System × StartedJob
call_start_job duration s = let (m, job) = start_job duration s.manager in (started s (m, job), job)

pub call_cancel_job : ℤ → System → System × Bool
call_cancel_job (negsuc i) s = (s, false)
call_cancel_job (pos i) s = let found = cancel_job i s.manager in (signaled i s found, found)

-- What a line of the command line comes to: the system, what is printed, and whether it asks for the
-- shutdown and ends the loop.
abbrev pub Reply : Type 0
Reply = System × List Line × Bool

pub data Input : Type 0 where
  -- `ctx.Done`
  context_done : Input
  -- the scanner's error, or nil
  input_error : Option ℕ → Input
  line : String → Input
  lines_closed : Input

pub data Response : Type 0 where
  ok_list : List Job → Response
  created : StartedJob → Response
  bad_duration bad_id not_found accepted : Response
  bind_failed : ℕ → Response

-- Whether the loop returns behind a line, whatever the manager.
abbrev pub is_quit : List String → Bool
is_quit [] = false
is_quit (w ∷ ws) = str_eq w "quit" || str_eq w "exit"

module _ (parse_duration atoi : String → Option ℤ) where
  pub start_reply : Option ℤ → System → Reply
  unfolding call_start_job
  start_reply none s = (s, invalid_duration ∷ [], false)
  start_reply (some d) s =
      let (s', job) = call_start_job d s in (s', started_job job.id ∷ [], false)

  pub start_command : List String → System → Reply
  unfolding start_reply
  start_command [] s = start_reply (some default_duration) s
  start_command (w ∷ ws) s = start_reply (parse_duration w) s

  pub cancel_reply : Option ℤ → System → Reply
  unfolding call_cancel_job
  cancel_reply none s = (s, invalid_id ∷ [], false)
  cancel_reply (some i) s =
      let (s', found) = call_cancel_job i s in (s', cancel_result i found ∷ [], false)

  pub cancel_command : List String → System → Reply
  unfolding cancel_reply
  cancel_command [] s = (s, usage_cancel ∷ [], false)
  cancel_command (w ∷ ws) s = cancel_reply (atoi w) s

  pub handle : List String → System → Reply
  unfolding start_command cancel_command listing
  handle [] s = (s, [], false)
  handle (w ∷ ws) s =
      if str_eq w "start"
      then start_command ws s
      else if str_eq w "list"
      then (s, listing (sort_jobs s.manager.jobs), false)
      else if str_eq w "cancel"
      then cancel_command ws s
      else if str_eq w "quit" || str_eq w "exit"
      then (s, [], true)
      else (s, help ∷ [], false)

  abbrev pub then_reply : List Line → Reply → Reply
  then_reply out (s, more, quit) = (s, out ++ more, quit)

  -- The loop of `JobCLI.run`, in the order in which its `select` takes the inputs.
  pub run : List Input → System → Reply
  unfolding handle
  run [] s = (s, [], false)
  run (context_done ∷ is) s = (s, [], false)
  run (input_error none ∷ is) s = (s, [], false)
  run (input_error (some e) ∷ is) s = (s, input_failed e ∷ [], false)
  run (lines_closed ∷ is) s = (s, [], false)
  run (line l ∷ is) s =
      let (s', out, quit) = handle (fields l) s in
      let rest = then_reply out (run is s') in if quit then (s', out, true) else rest

  pub list_handler : System → Response
  list_handler s = ok_list (sort_jobs s.manager.jobs)

  pub start_response : Option ℤ → System → System × Response
  unfolding call_start_job
  start_response none s = (s, bad_duration)
  start_response (some d) s = let (s', job) = call_start_job d s in (s', created job)

  -- Of the request, what `Bind` gives: an error, or the text of the duration.
  pub start_handler : Option ℕ → String → System → System × Response
  unfolding start_response
  start_handler (some e) text s = (s, bind_failed e)
  start_handler none text s =
      start_response (if is_blank text then some default_duration else parse_duration text) s

  pub cancel_response : Option ℤ → System → System × Response
  unfolding call_cancel_job
  cancel_response none s = (s, bad_id)
  cancel_response (some i) s =
      let (s', found) = call_cancel_job i s in (s', if found then accepted else not_found)

  pub cancel_handler : String → System → System × Response
  unfolding cancel_response
  cancel_handler id s = cancel_response (atoi id) s

-- `countVerbosity`: the letters v of the arguments that begin with a dash.
pub count_v : String → ℕ
count_v String.[] = 0
count_v (String.◌∷◌ c s) = (if code c == b'v' then 1 else 0) + count_v s

pub verbosity_of : String → ℕ
unfolding count_v
verbosity_of String.[] = 0
verbosity_of (String.◌∷◌ c s) = if code c == b'-' then count_v s else 0

pub count_verbosity : List String → ℕ
unfolding verbosity_of
count_verbosity [] = 0
count_verbosity (a ∷ args) = verbosity_of a + count_verbosity args
