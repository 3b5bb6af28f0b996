-- ===== src/OidcVerifier/Lifecycle/Laws.antt =====
-- oidcverifier/oidcverifier.go: what holds of a verifier under every interleaving of its callers.
use go_toolbelt.Base.{◌≤◌, ◌≡◌, refl, true, false, none, some, if◌then◌else◌, arith, ◌⊎◌}
use go_toolbelt.OidcVerifier.Lifecycle.{
  begin_start, end_start, stop, ready, System, init, Step, call, discovered, halt, Steps, here,
  next,
}

-- Discoveries begin with the start, and a verifier that is ready has started and is not stopped.
record IsValid {Metadata : Type 0} (s : System Metadata) : Type 0 where
  once : s.begun ≡ (if s.verifier.started then 1 else 0)
  under_way : s.pending ≤ s.begun
  live :
      (s.verifier.metadata ≡ none)
      ⊎ ((s.verifier.started ≡ true) × (s.verifier.stopped ≡ false) × (s.pending ≡ 0))

module _ {Metadata : Type 0} where
  Step-IsValid : (s t : System Metadata) → Step s t → IsValid s → IsValid t
  unfolding begin_start end_start stop
  Step-IsValid s _ call v = ground arith
  Step-IsValid s _ (discovered none h) v = ground arith
  Step-IsValid s _ (discovered (some m) h) v = ground arith
  Step-IsValid s _ halt v = ground arith

  Steps-IsValid : (s : System Metadata) → Steps (init Metadata) s → IsValid s
  Steps-IsValid _ here = ground arith
  Steps-IsValid _ (next {t} {u} r st) = Step-IsValid t u st (Steps-IsValid t r)

  -- In every reachable state at most one discovery has begun, none is under way on a verifier that
  -- is ready, and a ready verifier has started and is not stopped.
  one_discovery :
      (s : System Metadata)
      → Steps (init Metadata) s
      → (s.begun ≤ 1)
        × (ready s.verifier ≡ true
            → (s.pending ≡ 0) × (s.verifier.started ≡ true) × (s.verifier.stopped ≡ false))
  unfolding ready
  one_discovery s r = let v = Steps-IsValid s r in (ground arith, λ h. ground arith)

  Step-stopped :
      (s t : System Metadata)
      → Step s t
      → (s.verifier.stopped ≡ true) × (s.verifier.metadata ≡ none)
      → (t.verifier.stopped ≡ true) × (t.verifier.metadata ≡ none)
  unfolding begin_start end_start stop
  Step-stopped s _ call h = ground arith
  Step-stopped s _ (discovered none p) h = ground arith
  Step-stopped s _ (discovered (some m) p) h = ground arith
  Step-stopped s _ halt h = ground arith

  Steps-stopped :
      (s t : System Metadata)
      → Steps s t
      → (s.verifier.stopped ≡ true) × (s.verifier.metadata ≡ none)
      → (t.verifier.stopped ≡ true) × (t.verifier.metadata ≡ none)
  Steps-stopped s _ here h = h
  Steps-stopped s _ (next {t} {u} r st) h = Step-stopped t u st (Steps-stopped s t r h)

  -- Behind `Stop` the verifier is never ready again, whatever steps follow, a discovery that was
  -- under way included.
  stopped_for_good :
      (s t : System Metadata)
      → Steps (record s { verifier = stop s.verifier }) t
      → (t.verifier.stopped ≡ true) × (ready t.verifier ≡ false)
  unfolding stop ready
  stopped_for_good s t r =
      let h = Steps-stopped (record s { verifier = stop s.verifier }) t r (refl, refl) in
      ground arith
