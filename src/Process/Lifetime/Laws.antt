-- ===== src/Process/Lifetime/Laws.antt =====
-- process/process.go: what every sink is given, whatever the interleaving of the goroutines.
use go_toolbelt.Base.{
  ℕ, ◌≡◌, ◌≢◌, ◌<◌, refl, sym, ◌∙◌, List, [], ◌∷◌, ◌++◌, Option, none, some, arith, append-nil,
}
use go_toolbelt.Process.Events.{
  Stream, stdout, stderr, Outcome, Ended, collect, chunk_events, started_event, run, running,
}
use go_toolbelt.Process.Lifetime.{
  Writer, ended, Collector, waiting, finishing, emitted, returned, Emitter, by_writer, by_collector,
  System, Reach, wait,
}
use go_toolbelt.Process.Lifetime.Invariant.{bytes_of, Holds, past_gate, past_streams, Reach-IsValid}

-- Behind the last event nobody holds `sinkMu`.
nobody_emits :
    (f : Stream → Writer) (c : Collector) (o : Option (Emitter × ℕ))
    → ((e : Ended) → c ≢ finishing e)
    → ((t : Stream) → f t ≡ ended)
    → Holds f c o
    → o ≡ none
nobody_emits f c none h q v = refl
nobody_emits f c (some (by_writer t b, j)) h q v = absurd (let g = sym v ∙ q t in cc)
nobody_emits f c (some (by_collector e, j)) h q v = absurd (h e v)

wait-returned :
    (pid : ℕ) (c : Collector) (r : Outcome)
    → wait pid c ≡ some r
    → (e : Ended) × (c ≡ returned e) × ((collect pid e).0 ≡ r)
unfolding wait
wait-returned pid waiting r h = absurd cc
wait-returned pid (finishing e) r h = absurd cc
wait-returned pid (emitted e) r h = absurd cc
wait-returned pid (returned e) r h = (e, refl, cc)

-- However the goroutines interleave, when `Wait` returns, every sink has been given, in the same order,
-- the events that `Run` is specified to give for some order of the chunks, and `Wait` returns its
-- result. The chunks are all that was read of each stream, in its order.
pub wait_refines_run :
    (pid sinks : ℕ) (s : System) (r : Outcome) (c : ℕ) (path : List ℕ) (k : ℕ) (t : Stream)
    → Reach pid sinks s
    → wait pid s.collector ≡ some r
    → k < sinks
    → (e : Ended) × (run (c ∷ path) (running pid s.chunks e) ≡ (r, s.log k))
      × (s.source t ≡ bytes_of t s.chunks)
unfolding run
wait_refines_run pid sinks s r c path k t reached h lt =
    let v = Reach-IsValid pid sinks s reached in
    let (e, at, same) = wait-returned pid s.collector r h in
    let moved : s.collector ≢ waiting = λ q. (let g = sym at ∙ q in cc) in
    let (out_ended, err_ended) = past_streams pid sinks s moved v in
    let all_ended : (u : Stream) → s.writer u ≡ ended =
      λ u. elim u as (λ u. s.writer u ≡ ended) [ stdout ↦ out_ended | stderr ↦ err_ended ] in
    let quiet =
      nobody_emits s.writer s.collector s.emitting (λ x q. let g = sym at ∙ q in cc) all_ended
        v.held in
    let open_gate = past_gate pid sinks s moved v in
    let given_all = v.logged k lt in
    (
      e,
      ground (
        arith,
        same,
        given_all,
        at,
        quiet,
        open_gate,
        append-nil (started_event pid ∷ (chunk_events pid s.chunks ++ ((collect pid e).1 ∷ []))),
      ),
      v.sourced t ∙ (rw (all_ended t) (append-nil (bytes_of t s.chunks))),
    )
