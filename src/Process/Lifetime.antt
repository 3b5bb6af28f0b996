-- ===== src/Process/Lifetime.antt =====
-- process/process.go: a process that `Start` has started, with its goroutines. `Start` gives every sink
-- the started event and opens the gate; for each output stream a goroutine of os/exec reads chunks and
-- calls `processWriter.Write`, which waits for the gate and for `sinkMu`; `collect` waits for the
-- process, which os/exec reports when both goroutines have ended, and gives the last event. An event
-- is given to one sink after the other, and every such call is a step of the system.
pub mod Invariant
pub mod Laws
pub mod Progress
mod Tests
use go_toolbelt.Base.{
  ℕ, suc, ◌≡◌, ◌<◌, Bool, true, false, ◌==◌, List, [], ◌∷◌, ◌++◌, Option, none, some, if◌then◌else◌,
}
use go_toolbelt.Process.Events.{
  Stream, stdout, stderr, Event, Outcome, Ended, collect, chunk_event, started_event,
}

-- A value for each stream, with one changed.
pub at_stream {ℓ} : {A : Type ℓ} → Stream → A → (Stream → A) → Stream → A
at_stream stdout a f stdout = a
at_stream stdout a f stderr = f stderr
at_stream stderr a f stdout = f stdout
at_stream stderr a f stderr = a

-- The goroutine of a stream: between two reads, in `Write` with a chunk, or at an end.
pub data Writer : Type 0 where
  reading : Writer
  writing : List ℕ → Writer
  ended : Writer

-- `collect`: at `cmd.Wait`, with what it has returned, behind the last event, or behind `close(p.done)`.
pub data Collector : Type 0 where
  waiting : Collector
  finishing emitted returned : Ended → Collector

-- Who holds `sinkMu`, with the data of the event.
pub data Emitter : Type 0 where
  by_writer : Stream → List ℕ → Emitter
  by_collector : Ended → Emitter

pub event_of : ℕ → Emitter → Event
event_of pid (by_writer s b) = chunk_event pid (s, b)
event_of pid (by_collector e) = (collect pid e).1

pub record System : Type 0 where
  -- how many sinks have been given the started event; behind the opening of the gate, `none`
  pub announcing : Option ℕ
  -- the holder of `sinkMu`, and how many sinks have been given its event
  pub emitting : Option (Emitter × ℕ)
  pub writer : Stream → Writer
  pub collector : Collector
  -- what each sink has been given, in order
  pub log : ℕ → List Event
  -- what has been read of each stream
  pub source : Stream → List (List ℕ)
  -- the chunks that every sink has been given
  pub chunks : List (Stream × List ℕ)

abbrev pub init : System
init = record {
  announcing = some 0;
  emitting = none;
  writer = λ s. reading;
  collector = waiting;
  log = λ k. [];
  source = λ s. [];
  chunks = [];
}

-- One call of `HandleProcessEvent`.
pub given : ℕ → Event → (ℕ → List Event) → ℕ → List Event
given k e log i = if i == k then log i ++ (e ∷ []) else log i

-- Behind the `Unlock` of `sinkMu`.
pub released : Emitter → System → System
unfolding at_stream
released (by_writer t b) s = record s {
  emitting = none;
  writer = at_stream t reading s.writer;
  chunks = s.chunks ++ ((t, b) ∷ []);
}
released (by_collector e) s = record s { emitting = none; collector = emitted e }

-- For a process and a number of sinks.
pub data Step (pid sinks : ℕ) (s : System) : System → Type 0 where
  announces :
      (k : ℕ)
      → s.announcing ≡ some k
      → k < sinks
      → Step pid sinks s
          (record s { announcing = some (suc k); log = given k (started_event pid) s.log })
  opens : s.announcing ≡ some sinks → Step pid sinks s (record s { announcing = none })
  reads :
      (t : Stream) (b : List ℕ)
      → s.writer t ≡ reading
      → Step pid sinks s (record s {
        writer = at_stream t (writing b) s.writer;
        source = at_stream t (s.source t ++ (b ∷ [])) s.source;
      })
  stream_ends :
      (t : Stream)
      → s.writer t ≡ reading
      → Step pid sinks s (record s { writer = at_stream t ended s.writer })
  locks :
      (t : Stream) (b : List ℕ)
      → s.writer t ≡ writing b
      → s.announcing ≡ none
      → s.emitting ≡ none
      → Step pid sinks s (record s { emitting = some (by_writer t b, 0) })
  process_ends :
      (e : Ended)
      → s.collector ≡ waiting
      → s.announcing ≡ none
      → s.writer stdout ≡ ended
      → s.writer stderr ≡ ended
      → Step pid sinks s (record s { collector = finishing e })
  locks_last :
      (e : Ended)
      → s.collector ≡ finishing e
      → s.emitting ≡ none
      → Step pid sinks s (record s { emitting = some (by_collector e, 0) })
  gives :
      (w : Emitter) (k : ℕ)
      → s.emitting ≡ some (w, k)
      → k < sinks
      → Step pid sinks s
          (record s { emitting = some (w, suc k); log = given k (event_of pid w) s.log })
  unlocks : (w : Emitter) → s.emitting ≡ some (w, sinks) → Step pid sinks s (released w s)
  returns :
      (e : Ended) → s.collector ≡ emitted e → Step pid sinks s (record s { collector = returned e })

pub data Reach (pid sinks : ℕ) : System → Type 0 where
  start : Reach pid sinks init
  later : {s t : System} → Reach pid sinks s → Step pid sinks s t → Reach pid sinks t

-- What `Wait` returns behind `<-p.done`.
pub wait : ℕ → Collector → Option Outcome
wait pid (returned e) = some (collect pid e).0
wait pid _ = none
