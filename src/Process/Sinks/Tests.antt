-- ===== src/Process/Sinks/Tests.antt =====
-- process/process.go: two chunks, given to a writer sink and to a scrollback of two bytes.
use go_toolbelt.Base.{ℕ, ◌≡◌, refl, List, [], ◌∷◌, none, some}
use go_toolbelt.Process.Events.{Event, Stream, stdout, stderr, chunk}
use go_toolbelt.Process.Sinks.{
  WriterSink, chunks_of, any_stream, new_scrollback, handle, handle_all, keep,
  scrollback_keeps_tail,
}

abbrev chunk_of : Stream → List ℕ → Event
chunk_of s written = record {
  type = chunk;
  stream = s;
  bytes = written;
  pid = 42;
  exit_code = some 0;
  errors = [];
}

abbrev two_chunks : List Event
two_chunks = chunk_of stdout (1 ∷ 2 ∷ []) ∷ chunk_of stderr (3 ∷ []) ∷ []

abbrev sink : WriterSink
sink = record { out = none; err = some []; merged = some [] }

tail_kept : (handle_all (new_scrollback 2) two_chunks).buf ≡ 2 ∷ 3 ∷ []
unfolding handle_all handle
tail_kept = refl

scrollback_keeps_tail_example :
    (handle_all (new_scrollback 2) two_chunks).buf ≡ keep 2 (chunks_of any_stream two_chunks)
scrollback_keeps_tail_example = scrollback_keeps_tail 2 two_chunks
