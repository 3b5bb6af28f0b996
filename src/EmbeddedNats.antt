-- ===== src/EmbeddedNats.antt =====
-- embeddednats/embeddednats.go. `Start` is a critical section, the making of a directory and of a NATS
-- server, the wait for its connections, a section that installs it, and one that clears `starting`;
-- `waitForShutdown` runs in a goroutine for each server; `Stop` is a critical section, a wait, and a
-- section behind it. Each is a step of a system in which any number of goroutines call `Start` and
-- `Stop`. What the NATS server and the file system return is an argument. Launch has the configuration
-- and the making of a server, Client the connections.
pub mod Launch
pub mod Client
pub mod Laws
mod Tests
use go_toolbelt.Base.{
  ℕ, suc, ◌+◌, ◌-◌, ◌≡◌, ◌⊎◌, Bool, true, false, not, ◌&&◌, ◌==◌, List, [], ◌∷◌, ◌++◌, Option, none,
  some, if◌then◌else◌,
}
use go_toolbelt.Base.Ids.{has, without}
use go_toolbelt.EmbeddedNats.Launch.{
  Options, Call, make_dir, start_nats, wait_shutdown, remove_dir, remove_temp_dir, Phase, idle,
  at_temp, at_create, at_ready, at_install, returning, Move, make_temp, create, await_ready,
}

-- A `runningServer`, known by the number of those made before it; `has_temp` is `tempDir != ""`.
pub record RunningServer : Type 0 where
  pub id : ℕ
  pub has_temp : Bool
  pub done : Bool
  pub stop_err : Option ℕ
  pub stopping : Bool
  -- whether `stopOnce` has shut it down
  pub shut_down : Bool

pub record Server : Type 0 where
  pub starting : Bool
  pub running : Option RunningServer

-- The first section of `Start`, and whether it goes on; else it returns the error that the server was
-- already started.
pub begin_start : Server → Server × Bool
begin_start s = elim s.running [
  | some r ↦ (s, false)
  | none ↦ if s.starting then (s, false) else (record s { starting = true }, true)
]

-- The section that installs a server.
pub install : ℕ → Bool → Server → Server
install i temp s = record s {
  running = some (record {
    id = i;
    has_temp = temp;
    done = false;
    stop_err = none;
    stopping = false;
    shut_down = false;
  });
}

-- The deferred section of `Start`.
pub end_start : Server → Server
end_start s = record s { starting = false }

-- The first section of `Stop`: the server to wait for, if there is one.
pub begin_stop : Server → Server × Option ℕ
begin_stop s = elim s.running [
  | none ↦ (s, none)
  | some r ↦
      (record s { running = some (record r { stopping = true; shut_down = true }) }, some r.id)
]

-- `waitForShutdown` up to the closing of `done`, by what `os.RemoveAll` returns, with its calls.
pub finish : Option ℕ → RunningServer → RunningServer × List Call
unfolding remove_temp_dir
finish removal r =
    let (e, removed) = remove_temp_dir r.has_temp removal in
    (record r { stop_err = e; done = true }, wait_shutdown ∷ removed)

-- Its last section: whether it asks the application to shut down.
pub is_unexpected : ℕ → Option RunningServer → Bool
is_unexpected i none = false
is_unexpected i (some r) = r.id == i && not r.stopping

-- The section of `Stop` behind its wait.
pub end_stop : ℕ → Server → Server
end_stop i s = elim s.running [
  | none ↦ s
  | some r ↦ if r.id == i then record s { running = none } else s
]

-- What `Stop` returns behind it: the error of the removal and that of the context, joined.
pub stop_errors : Option ℕ → Option ℕ → List ℕ
stop_errors stop_err ctx_err =
    (elim stop_err [ none ↦ [] | some e ↦ e ∷ [] ])
    ++ (elim ctx_err [ none ↦ [] | some e ↦ e ∷ [] ])

-- How many NATS servers are alive until somebody has seen their end, how many temporary directories
-- there are, and how many removals of one have failed.
pub record World : Type 0 where
  pub live : ℕ
  pub dirs : ℕ
  pub failed : ℕ

-- A removal that fails leaves the directory there.
pub perform : Call → World → World
perform make_dir w = record w { dirs = w.dirs + 1 }
perform start_nats w = record w { live = w.live + 1 }
perform wait_shutdown w = record w { live = w.live - 1 }
perform (remove_dir none) w = record w { dirs = w.dirs - 1 }
perform (remove_dir (some e)) w = record w { failed = w.failed + 1 }

pub perform_all : List Call → World → World
unfolding perform
perform_all [] w = w
perform_all (c ∷ cs) w = perform_all cs (perform c w)

-- The server, the one `Start` that is under way, and the world; how many runners were made, the
-- servers whose goroutine has not ended, and those for which it has asked for a shutdown.
pub record System : Type 0 where
  pub server : Server
  pub phase : Phase
  pub world : World
  pub made : ℕ
  pub watched : List ℕ
  pub requests : List ℕ

abbrev pub init : System
init = record {
  server = record { starting = false; running = none };
  phase = idle;
  world = record { live = 0; dirs = 0; failed = 0 };
  made = 0;
  watched = [];
  requests = [];
}

-- Behind the first section of `Start`.
pub began : System → Server × Bool → System
began s (server, true) = record s { server = server; phase = at_temp }
began s (server, false) = record s { server = server }

-- Behind a part of `Start` that is outside the mutex.
pub moved : System → Move → System
unfolding perform_all
moved s m = record s { phase = m.phase; world = perform_all m.calls s.world }

-- Behind the second section of `Start`, with the goroutine that it starts.
pub installed : Bool → System → System
unfolding install
installed temp s = record s {
  server = install s.made temp s.server;
  phase = returning;
  made = suc s.made;
  watched = s.made ∷ s.watched;
}

-- Behind `finish`.
pub finished : System → RunningServer × List Call → System
unfolding perform_all
finished s (r, calls) = record s {
  server = record s.server { running = some r };
  world = perform_all calls s.world;
}

-- Behind the last section of `waitForShutdown`.
pub looked : ℕ → System → System
unfolding is_unexpected
looked i s = record s {
  watched = without s.watched i;
  requests = if is_unexpected i s.server.running then i ∷ s.requests else s.requests;
}

-- The server with a number is done; one that `Stop` has dropped is.
abbrev pub IsDone : ℕ → Option RunningServer → Type 0
IsDone i none = Unit {0}
IsDone i (some r) = (r.id == i ≡ false) ⊎ (r.done ≡ true)

pub data Step (options : Options) (s : System) : System → Type 0 where
  call_start : Step options s (began s (begin_start s.server))
  makes_temp :
      (temp_err : Option ℕ)
      → s.phase ≡ at_temp
      → Step options s (moved s (make_temp options temp_err))
  creates :
      (temp : Bool) (create_err removal : Option ℕ)
      → s.phase ≡ at_create temp
      → Step options s (moved s (create temp create_err removal))
  awaits :
      (temp ready : Bool) (removal : Option ℕ)
      → s.phase ≡ at_ready temp
      → Step options s (moved s (await_ready temp ready removal))
  installs : (temp : Bool) → s.phase ≡ at_install temp → Step options s (installed temp s)
  returns :
      s.phase ≡ returning → Step options s (record s { server = end_start s.server; phase = idle })
  call_stop : Step options s (record s { server = (begin_stop s.server).0 })
  -- the NATS server ends, shut down or by itself
  ends :
      (r : RunningServer) (removal : Option ℕ)
      → s.server.running ≡ some r
      → r.done ≡ false
      → Step options s (finished s (finish removal r))
  looks : (i : ℕ) → has s.watched i ≡ true → IsDone i s.server.running → Step options s (looked i s)
  stopped :
      (i : ℕ)
      → IsDone i s.server.running
      → Step options s (record s { server = end_stop i s.server })

pub data Reach (options : Options) : System → Type 0 where
  start : Reach options init
  later : {s t : System} → Reach options s → Step options s t → Reach options t
