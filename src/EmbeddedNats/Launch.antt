-- ===== src/EmbeddedNats/Launch.antt =====
-- embeddednats/embeddednats.go: the configuration, `New`, and what `Start` does outside the mutex. What
-- the NATS server and the file system return is an argument.
use go_toolbelt.Base.{
  ℕ, Bool, true, false, not, ◌&&◌, String, List, [], ◌∷◌, ◌++◌, Option, none, some, if◌then◌else◌,
  str_eq,
}
use go_toolbelt.Base.Int.{ℤ, pos, is_nonpositive}

-- Ten seconds, in nanoseconds.
abbrev pub default_ready_timeout : ℤ
default_ready_timeout = pos 10_000_000_000

-- What is read or set of the options of the NATS server.
pub record Options : Type 0 where
  pub host : String
  pub random_port : Bool
  pub jet_stream : Bool
  pub store_dir : String
  pub dont_listen : Bool

abbrev pub default_options : Options
default_options = record {
  host = "127.0.0.1";
  random_port = true;
  jet_stream = true;
  store_dir = "";
  dont_listen = false;
}

pub record Config : Type 0 where
  pub options : Option Options
  pub ready_timeout : ℤ

pub record Settings : Type 0 where
  pub options : Options
  pub ready_timeout : ℤ
  pub logger : ℕ

-- `WithLogger`, by the number of a logger.
pub with_logger : Option ℕ → Settings → Settings
with_logger none s = s
with_logger (some logger) s = record s { logger = logger }

pub apply_options : List (Option ℕ) → Settings → Settings
unfolding with_logger
apply_options [] s = s
apply_options (o ∷ os) s = apply_options os (with_logger o s)

-- The fields that `New` sets; the logger 0 is `slog.Default()`.
pub new : Config → List (Option ℕ) → Settings
unfolding apply_options
new cfg os = apply_options os (record {
  options = elim cfg.options [ none ↦ default_options | some o ↦ o ];
  ready_timeout =
      if is_nonpositive cfg.ready_timeout then default_ready_timeout else cfg.ready_timeout;
  logger = 0;
})

pub data StartError : Type 0 where
  no_temp not_created not_removed : ℕ → StartError
  not_ready : StartError

-- The calls that bring and remove directories and NATS servers: `os.MkdirTemp` where it succeeds,
-- `os.RemoveAll` by what it returns, `ns.Start`, and `ns.WaitForShutdown`.
pub data Call : Type 0 where
  make_dir start_nats wait_shutdown : Call
  remove_dir : Option ℕ → Call

-- `removeTempDir`, with what `os.RemoveAll` returns where it is called: the error, and the call.
unfoldable pub remove_temp_dir : Bool → Option ℕ → Option ℕ × List Call
remove_temp_dir false e = (none, [])
remove_temp_dir true e = (e, remove_dir e ∷ [])

abbrev pub removal_errors : Option ℕ → List StartError
removal_errors none = []
removal_errors (some e) = not_removed e ∷ []

-- Where the one `Start` that got past its first section is: before `os.MkdirTemp`, before
-- `server.NewServer`, before `ns.ReadyForConnections`, before its second section, and before the
-- deferred one. The test is `tempDir != ""`.
pub data Phase : Type 0 where
  idle at_temp returning : Phase
  at_create at_ready at_install : Bool → Phase

-- Where a part of `Start` leads, the errors that are returned, and the calls it has made.
pub record Move : Type 0 where
  pub phase : Phase
  pub errors : List StartError
  pub calls : List Call

-- An error, joined with that of the removal, behind some calls.
unfoldable pub give_up : StartError → Bool → Option ℕ → List Call → Move
unfolding remove_temp_dir
give_up e temp removal calls =
    let (r, removed) = remove_temp_dir temp removal in
    record { phase = returning; errors = e ∷ removal_errors r; calls = calls ++ removed }

abbrev pub needs_temp : Options → Bool
needs_temp options = options.jet_stream && str_eq options.store_dir ""

unfoldable pub make_temp : Options → Option ℕ → Move
make_temp options temp_err =
    if needs_temp options
    then elim temp_err [
      | some e ↦ record { phase = returning; errors = no_temp e ∷ []; calls = [] }
      | none ↦ record { phase = at_create true; errors = []; calls = make_dir ∷ [] }
    ]
    else record { phase = at_create false; errors = []; calls = [] }

-- `server.NewServer` and `ns.Start`.
unfoldable pub create : Bool → Option ℕ → Option ℕ → Move
unfolding give_up
create temp create_err removal = elim create_err [
  | some e ↦ give_up (not_created e) temp removal []
  | none ↦ record { phase = at_ready temp; errors = []; calls = start_nats ∷ [] }
]

-- `ns.ReadyForConnections`, by what it returns.
unfoldable pub await_ready : Bool → Bool → Option ℕ → Move
unfolding give_up
await_ready temp ready removal =
    if not ready
    then give_up not_ready temp removal (wait_shutdown ∷ [])
    else record { phase = at_install temp; errors = []; calls = [] }
