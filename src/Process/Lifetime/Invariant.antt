-- ===== src/Process/Lifetime/Invariant.antt =====
-- process/process.go: an invariant of a process and its goroutines, for every interleaving.
use go_toolbelt.Base.{
  ℕ, suc, ◌≡◌, ◌≢◌, ◌<◌, ◌⊎◌, inl, inr, refl, sym, ap, subst, ◌∙◌, Bool, true, false, List, [], ◌∷◌,
  ◌++◌, Option, none, some, if◌then◌else◌, ltb, arith, append-nil,
}
use go_toolbelt.Process.Events.{
  Stream, stdout, stderr, Event, Ended, collect, chunk_event, chunk_events, started_event,
}
use go_toolbelt.Process.Lifetime.{
  at_stream, Writer, reading, writing, ended, Collector, waiting, finishing, emitted, returned,
  Emitter, by_writer, by_collector, event_of, System, given, released, Step, announces, opens,
  reads, stream_ends, locks, process_ends, locks_last, gives, unlocks, returns, Reach, start, later,
}

-- The chunks of a stream.
abbrev pub is_stream : Stream → Stream → Bool
is_stream stdout stdout = true
is_stream stderr stderr = true
is_stream _ _ = false

pub bytes_of : Stream → List (Stream × List ℕ) → List (List ℕ)
bytes_of t [] = []
bytes_of t ((u, b) ∷ ws) = if is_stream t u then b ∷ bytes_of t ws else bytes_of t ws

abbrev pub pending : Writer → List (List ℕ)
pending (writing b) = b ∷ []
pending _ = []

module _ (pid : ℕ) where
  abbrev pub announced : ℕ → Option ℕ → List Event
  announced k none = started_event pid ∷ []
  announced k (some j) = if ltb k j then started_event pid ∷ [] else []

  abbrev pub last_of : Collector → List Event
  last_of (emitted e) = (collect pid e).1 ∷ []
  last_of (returned e) = (collect pid e).1 ∷ []
  last_of _ = []

  abbrev pub in_progress : ℕ → Option (Emitter × ℕ) → List Event
  in_progress k none = []
  in_progress k (some (w, j)) = if ltb k j then event_of pid w ∷ [] else []

  -- The events that were given to all the sinks, or to one of them the started event.
  abbrev pub history : ℕ → System → List Event
  history k s = announced k s.announcing ++ (chunk_events pid s.chunks ++ last_of s.collector)

-- Whoever holds `sinkMu` is there, with the data of its event.
abbrev pub Holds : (Stream → Writer) → Collector → Option (Emitter × ℕ) → Type 0
Holds f c none = Unit {0}
Holds f c (some (by_writer t b, j)) = f t ≡ writing b
Holds f c (some (by_collector e, j)) = c ≡ finishing e

pub record IsValid (pid sinks : ℕ) (s : System) : Type 0 where
  pub logged : (k : ℕ) → k < sinks → s.log k ≡ history pid k s ++ in_progress pid k s.emitting
  pub gated :
      (s.announcing ≡ none) ⊎ ((s.emitting ≡ none) × (s.chunks ≡ []) × (s.collector ≡ waiting))
  pub held : Holds s.writer s.collector s.emitting
  pub quiet : (s.collector ≡ waiting) ⊎ ((s.writer stdout ≡ ended) × (s.writer stderr ≡ ended))
  pub sourced : (t : Stream) → s.source t ≡ bytes_of t s.chunks ++ pending (s.writer t)

announces-IsValid :
    (pid sinks k : ℕ) (s : System)
    → s.announcing ≡ some k
    → IsValid pid sinks s
    → IsValid pid sinks
        (record s { announcing = some (suc k); log = given k (started_event pid) s.log })
unfolding given chunk_events
announces-IsValid pid sinks k s p v = record {
  logged = λ i h. ground (arith, v.logged i h, append-nil (s.log i));
  gated = ground arith;
  held = ground arith;
  quiet = v.quiet;
  sourced = v.sourced;
}

opens-IsValid :
    (pid sinks : ℕ) (s : System)
    → s.announcing ≡ some sinks
    → IsValid pid sinks s
    → IsValid pid sinks (record s { announcing = none })
unfolding chunk_events
opens-IsValid pid sinks s p v = record {
  logged = λ i h. ground (arith, v.logged i h);
  gated = inl refl;
  held = v.held;
  quiet = v.quiet;
  sourced = v.sourced;
}

held_at :
    (t : Stream) (x : Writer) (f : Stream → Writer) (c : Collector) (o : Option (Emitter × ℕ))
    → f t ≡ reading
    → Holds f c o
    → Holds (at_stream t x f) c o
unfolding at_stream
held_at t x f c none p h = tt
held_at t x f c (some (by_collector e, j)) p h = h
held_at stdout x f c (some (by_writer stdout b, j)) p h = absurd (let g = sym p ∙ h in cc)
held_at stdout x f c (some (by_writer stderr b, j)) p h = h
held_at stderr x f c (some (by_writer stdout b, j)) p h = h
held_at stderr x f c (some (by_writer stderr b, j)) p h = absurd (let g = sym p ∙ h in cc)

-- The process has not been waited for while a stream is open.
still_waiting :
    (pid sinks : ℕ) (s : System) (t : Stream)
    → s.writer t ≢ ended
    → IsValid pid sinks s
    → s.collector ≡ waiting
still_waiting pid sinks s stdout h v = elim v.quiet [ inl q ↦ q | inr (a, b) ↦ absurd (h a) ]
still_waiting pid sinks s stderr h v = elim v.quiet [ inl q ↦ q | inr (a, b) ↦ absurd (h b) ]

sourced_at :
    (t : Stream) (x : Writer) (y : List (List ℕ)) (f : Stream → Writer) (g : Stream → List (List ℕ))
    (cs : List (Stream × List ℕ))
    → ((u : Stream) → g u ≡ bytes_of u cs ++ pending (f u))
    → y ≡ bytes_of t cs ++ pending x
    → (u : Stream) → at_stream t y g u ≡ bytes_of u cs ++ pending (at_stream t x f u)
unfolding at_stream
sourced_at stdout x y f g cs h p stdout = p
sourced_at stdout x y f g cs h p stderr = h stderr
sourced_at stderr x y f g cs h p stdout = h stdout
sourced_at stderr x y f g cs h p stderr = p

at_stream_same {ℓ} : {A : Type ℓ} (t u : Stream) (f : Stream → A) → at_stream t (f t) f u ≡ f u
unfolding at_stream
at_stream_same stdout stdout f = refl
at_stream_same stdout stderr f = refl
at_stream_same stderr stdout f = refl
at_stream_same stderr stderr f = refl

reads-IsValid :
    (pid sinks : ℕ) (t : Stream) (b : List ℕ) (s : System)
    → s.writer t ≡ reading
    → IsValid pid sinks s
    → IsValid pid sinks (record s {
      writer = at_stream t (writing b) s.writer;
      source = at_stream t (s.source t ++ (b ∷ [])) s.source;
    })
reads-IsValid pid sinks t b s p v = record {
  logged = v.logged;
  gated = v.gated;
  held = held_at t (writing b) s.writer s.collector s.emitting p v.held;
  quiet = inl (still_waiting pid sinks s t (λ q. let g = sym p ∙ q in cc) v);
  sourced =
      sourced_at t (writing b) (s.source t ++ (b ∷ [])) s.writer s.source s.chunks v.sourced
        (ap (λ l. l ++ (b ∷ [])) (v.sourced t ∙ (rw p (append-nil (bytes_of t s.chunks)))));
}

stream_ends-IsValid :
    (pid sinks : ℕ) (t : Stream) (s : System)
    → s.writer t ≡ reading
    → IsValid pid sinks s
    → IsValid pid sinks (record s { writer = at_stream t ended s.writer })
stream_ends-IsValid pid sinks t s p v = record {
  logged = v.logged;
  gated = v.gated;
  held = held_at t ended s.writer s.collector s.emitting p v.held;
  quiet = inl (still_waiting pid sinks s t (λ q. let g = sym p ∙ q in cc) v);
  sourced = λ u.
      sym (at_stream_same t u s.source)
      ∙ sourced_at t ended (s.source t) s.writer s.source s.chunks v.sourced
          (v.sourced t ∙ rw p refl) u;
}

chunk_events-snoc :
    (pid : ℕ) (cs : List (Stream × List ℕ)) (w : Stream × List ℕ)
    → chunk_events pid (cs ++ (w ∷ [])) ≡ chunk_events pid cs ++ (chunk_event pid w ∷ [])
unfolding chunk_events
chunk_events-snoc pid [] w = refl
chunk_events-snoc pid (c ∷ cs) w = ap (◌∷◌ (chunk_event pid c)) (chunk_events-snoc pid cs w)

bytes_of-snoc :
    (u t : Stream) (b : List ℕ) (cs : List (Stream × List ℕ))
    → bytes_of u (cs ++ ((t, b) ∷ [])) ≡ bytes_of u cs ++ bytes_of u ((t, b) ∷ [])
unfolding bytes_of
bytes_of-snoc u t b [] = refl
bytes_of-snoc u t b ((x, c) ∷ cs) = ground (arith, bytes_of-snoc u t b cs)

unlocks-sourced :
    (t u : Stream) (b : List ℕ) (s : System)
    → s.writer t ≡ writing b
    → s.source u ≡ bytes_of u s.chunks ++ pending (s.writer u)
    → s.source u
      ≡ bytes_of u (s.chunks ++ ((t, b) ∷ [])) ++ pending (at_stream t reading s.writer u)
unfolding at_stream bytes_of
unlocks-sourced stdout stdout b s p v = ground (
  arith,
  bytes_of-snoc stdout stdout b s.chunks,
  append-nil (bytes_of stdout (s.chunks ++ ((stdout, b) ∷ []))),
)
unlocks-sourced stdout stderr b s p v =
    ground (arith, bytes_of-snoc stderr stdout b s.chunks, append-nil (bytes_of stderr s.chunks))
unlocks-sourced stderr stdout b s p v =
    ground (arith, bytes_of-snoc stdout stderr b s.chunks, append-nil (bytes_of stdout s.chunks))
unlocks-sourced stderr stderr b s p v = ground (
  arith,
  bytes_of-snoc stderr stderr b s.chunks,
  append-nil (bytes_of stderr (s.chunks ++ ((stderr, b) ∷ []))),
)

-- An event that is being given means that the gate is open.
gate_open :
    (pid sinks : ℕ) (s : System) (w : Emitter) (k : ℕ)
    → s.emitting ≡ some (w, k)
    → IsValid pid sinks s
    → s.announcing ≡ none
gate_open pid sinks s w k p v = elim v.gated [
  | inl q ↦ q
  | inr (q, r, u) ↦ absurd (let g = sym p ∙ q in cc)
]

Holds-next :
    (f : Stream → Writer) (c : Collector) (w : Emitter) (j k : ℕ)
    → Holds f c (some (w, j))
    → Holds f c (some (w, k))
Holds-next f c (by_writer t b) j k h = h
Holds-next f c (by_collector e) j k h = h

Holds-moved :
    (f : Stream → Writer) (c c' : Collector) (o : Option (Emitter × ℕ))
    → ((e : Ended) → c ≢ finishing e)
    → Holds f c o
    → Holds f c' o
Holds-moved f c c' none h v = tt
Holds-moved f c c' (some (by_writer t b, j)) h v = v
Holds-moved f c c' (some (by_collector e, j)) h v = absurd (h e v)

pub past_gate :
    (pid sinks : ℕ) (s : System) → s.collector ≢ waiting → IsValid pid sinks s → s.announcing ≡ none
past_gate pid sinks s h v = elim v.gated [ inl q ↦ q | inr (a, b, c) ↦ absurd (h c) ]

pub past_streams :
    (pid sinks : ℕ) (s : System)
    → s.collector ≢ waiting
    → IsValid pid sinks s
    → (s.writer stdout ≡ ended) × (s.writer stderr ≡ ended)
past_streams pid sinks s h v = elim v.quiet [ inl q ↦ absurd (h q) | inr q ↦ q ]

gives-IsValid :
    (pid sinks k : ℕ) (w : Emitter) (s : System)
    → s.emitting ≡ some (w, k)
    → IsValid pid sinks s
    → IsValid pid sinks
        (record s { emitting = some (w, suc k); log = given k (event_of pid w) s.log })
unfolding given
gives-IsValid pid sinks k w s p v = record {
  logged = λ i h. ground (arith, v.logged i h, append-nil (history pid i s));
  gated = inl (gate_open pid sinks s w k p v);
  held = Holds-next s.writer s.collector w k (suc k) (subst (Holds s.writer s.collector) p v.held);
  quiet = v.quiet;
  sourced = v.sourced;
}

unlocks_writer-IsValid :
    (pid sinks : ℕ) (t : Stream) (b : List ℕ) (s : System)
    → s.emitting ≡ some (by_writer t b, sinks)
    → IsValid pid sinks s
    → IsValid pid sinks (released (by_writer t b) s)
unfolding released event_of
unlocks_writer-IsValid pid sinks t b s p v =
    let at : s.writer t ≡ writing b = subst (Holds s.writer s.collector) p v.held in
    let waits : s.collector ≡ waiting =
      still_waiting pid sinks s t (λ q. let g = sym at ∙ q in cc) v in
    let open_gate = gate_open pid sinks s (by_writer t b) sinks p v in
    record {
      logged = λ i h. ground (
        arith,
        v.logged i h,
        chunk_events-snoc pid s.chunks (t, b),
        append-nil (chunk_events pid s.chunks),
        append-nil (chunk_events pid (s.chunks ++ ((t, b) ∷ []))),
        append-nil (chunk_events pid (s.chunks ++ ((t, b) ∷ [])) ++ []),
      );
      gated = inl open_gate;
      held = tt;
      quiet = inl waits;
      sourced = λ u. unlocks-sourced t u b s at (v.sourced u);
    }

unlocks_collector-IsValid :
    (pid sinks : ℕ) (e : Ended) (s : System)
    → s.emitting ≡ some (by_collector e, sinks)
    → IsValid pid sinks s
    → IsValid pid sinks (released (by_collector e) s)
unfolding released event_of
unlocks_collector-IsValid pid sinks e s p v =
    let at : s.collector ≡ finishing e = subst (Holds s.writer s.collector) p v.held in
    let open_gate = gate_open pid sinks s (by_collector e) sinks p v in
    record {
      logged = λ i h. ground (
        arith,
        v.logged i h,
        append-nil (chunk_events pid s.chunks),
        append-nil (chunk_events pid s.chunks ++ ((collect pid e).1 ∷ [])),
      );
      gated = inl open_gate;
      held = tt;
      quiet = inr (past_streams pid sinks s (λ q. let g = sym at ∙ q in cc) v);
      sourced = v.sourced;
    }

Step-IsValid :
    (pid sinks : ℕ) (s t : System) → Step pid sinks s t → IsValid pid sinks s → IsValid pid sinks t
Step-IsValid pid sinks s _ (announces k p h) v = announces-IsValid pid sinks k s p v
Step-IsValid pid sinks s _ (opens p) v = opens-IsValid pid sinks s p v
Step-IsValid pid sinks s _ (reads t b p) v = reads-IsValid pid sinks t b s p v
Step-IsValid pid sinks s _ (stream_ends t p) v = stream_ends-IsValid pid sinks t s p v
Step-IsValid pid sinks s _ (locks t b p q r) v = record {
  logged = λ i h. ground (arith, v.logged i h);
  gated = inl q;
  held = p;
  quiet = v.quiet;
  sourced = v.sourced;
}
Step-IsValid pid sinks s _ (process_ends e p q r u) v = record {
  logged = λ i h. ground (arith, v.logged i h);
  gated = inl q;
  held =
      Holds-moved s.writer s.collector (finishing e) s.emitting (λ x q. let g = sym p ∙ q in cc)
        v.held;
  quiet = inr (r, u);
  sourced = v.sourced;
}
Step-IsValid pid sinks s _ (locks_last e p q) v = record {
  logged = λ i h. ground (arith, v.logged i h);
  gated = inl (past_gate pid sinks s (λ x. let g = sym p ∙ x in cc) v);
  held = p;
  quiet = v.quiet;
  sourced = v.sourced;
}
Step-IsValid pid sinks s _ (gives w k p h) v = gives-IsValid pid sinks k w s p v
Step-IsValid pid sinks s _ (unlocks (by_writer t b) p) v =
    unlocks_writer-IsValid pid sinks t b s p v
Step-IsValid pid sinks s _ (unlocks (by_collector e) p) v =
    unlocks_collector-IsValid pid sinks e s p v
Step-IsValid pid sinks s _ (returns e p) v = record {
  logged = λ i h. ground (arith, v.logged i h);
  gated = inl (past_gate pid sinks s (λ x. let g = sym p ∙ x in cc) v);
  held =
      Holds-moved s.writer s.collector (returned e) s.emitting (λ x q. let g = sym p ∙ q in cc)
        v.held;
  quiet = inr (past_streams pid sinks s (λ x. let g = sym p ∙ x in cc) v);
  sourced = v.sourced;
}

pub Reach-IsValid : (pid sinks : ℕ) (s : System) → Reach pid sinks s → IsValid pid sinks s
unfolding chunk_events bytes_of
Reach-IsValid pid sinks _ start = record {
  logged = λ i h. ground arith;
  gated = ground arith;
  held = tt;
  quiet = inl refl;
  sourced = λ t. refl;
}
Reach-IsValid pid sinks _ (later {s} {t} r st) =
    Step-IsValid pid sinks s t st (Reach-IsValid pid sinks s r)
