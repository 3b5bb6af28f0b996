-- ===== src/Process/Lifetime/Tests.antt =====
-- process/process.go: a process with one sink that writes one chunk.
use go_toolbelt.Base.{ℕ, ◌+◌, ◌*◌, ◌≡◌, ◌≤◌, ◌⊎◌, refl, List, [], ◌∷◌, ◌++◌, none, some, arith}
use go_toolbelt.Process.Events.{stdout, stderr, Ended, collect, started_event, running, run}
use go_toolbelt.Process.Lifetime.{
  at_stream, writing, ended, finishing, returned, by_writer, by_collector, event_of, System, init,
  given, released, announces, opens, reads, stream_ends, locks, process_ends, locks_last, gives,
  unlocks, returns, Reach, start, later, wait,
}
use go_toolbelt.Process.Lifetime.Invariant.{bytes_of}
use go_toolbelt.Process.Lifetime.Laws.{wait_refines_run}
use go_toolbelt.Process.Lifetime.Progress.{CanStep, steps, read_steps, process_terminates}

abbrev one : List ℕ
one = 1 ∷ 2 ∷ []

abbrev success : Ended
success = record { wait_err = none; exit_code = some 0; ctx_err = none }

abbrev announced : System
announced = record init { announcing = some 1; log = given 0 (started_event 7) init.log }

abbrev opened : System
opened = record announced { announcing = none }

abbrev reading_one : System
reading_one = record opened {
  writer = at_stream stdout (writing one) opened.writer;
  source = at_stream stdout (opened.source stdout ++ (one ∷ [])) opened.source;
}

abbrev locked : System
locked = record reading_one { emitting = some (by_writer stdout one, 0) }

abbrev chunk_given : System
chunk_given = record locked {
  emitting = some (by_writer stdout one, 1);
  log = given 0 (event_of 7 (by_writer stdout one)) locked.log;
}

abbrev unlocked : System
unlocked = released (by_writer stdout one) chunk_given

abbrev out_ended : System
out_ended = record unlocked { writer = at_stream stdout ended unlocked.writer }

abbrev err_ended : System
err_ended = record out_ended { writer = at_stream stderr ended out_ended.writer }

abbrev finished : System
finished = record err_ended { collector = finishing success }

abbrev locked_last : System
locked_last = record finished { emitting = some (by_collector success, 0) }

abbrev last_given : System
last_given = record locked_last {
  emitting = some (by_collector success, 1);
  log = given 0 (event_of 7 (by_collector success)) locked_last.log;
}

abbrev unlocked_last : System
unlocked_last = released (by_collector success) last_given

abbrev waited : System
waited = record unlocked_last { collector = returned success }

launched : Reach 7 1 opened
launched = later (later start (announces 0 refl (omega arith))) (opens refl)

written : Reach 7 1 unlocked
unfolding at_stream
written =
    later
      (later (later (later launched (reads stdout one refl)) (locks stdout one refl refl refl))
        (gives (by_writer stdout one) 0 refl (omega arith)))
      (unlocks (by_writer stdout one) refl)

drained : Reach 7 1 finished
unfolding released at_stream
drained =
    later (later (later written (stream_ends stdout refl)) (stream_ends stderr refl))
      (process_ends success refl refl refl refl)

all_returned : Reach 7 1 waited
unfolding released
all_returned =
    later
      (later
        (later (later drained (locks_last success refl refl))
          (gives (by_collector success) 0 refl (omega arith)))
        (unlocks (by_collector success) refl))
      (returns success refl)

result_there : wait 7 waited.collector ≡ some (collect 7 success).0
unfolding wait
result_there = refl

wait_refines_run_example :
    (e : Ended) × (run (47 ∷ []) (running 7 waited.chunks e)
      ≡ ((collect 7 success).0, waited.log 0))
    × (waited.source stdout ≡ bytes_of stdout waited.chunks)
wait_refines_run_example =
    wait_refines_run 7 1 waited (collect 7 success).0 47 [] 0 stdout all_returned result_there
      (omega arith)

process_terminates_example :
    (((e : Ended) × (finished.collector ≡ returned e)) ⊎ CanStep 7 1 finished)
    × (steps drained ≤ (read_steps drained + 3) * (1 + 3))
process_terminates_example = process_terminates 7 1 finished drained
