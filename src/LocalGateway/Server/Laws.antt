-- ===== src/LocalGateway/Server/Laws.antt =====
-- localgateway/gateway.go: what any sequence of `Start`, `Stop` and failures of the serving
-- goroutine does.
use go_toolbelt.Base.{
  ℕ, suc, ◌+◌, ◌≤◌, ◌≡◌, ◌↔◌, refl, ap, Bool, true, false, String, List, [], ◌∷◌, ◌++◌, Option,
  none, some, arith,
}
use go_toolbelt.LocalGateway.Server.{
  Server, new_server, Effect, listen, serve, remove_endpoint, CloseError, already_closed,
  close_failed, Outcomes, joined, stop_server, shutdown_errors, cleanup_errors, Call, starts, fails,
  stops, perform, run,
}

-- How often the server began to serve, and how often the endpoint was removed.
abbrev pub serves : List Effect → ℕ
serves [] = 0
serves (serve c ∷ es) = suc (serves es)
serves (_ ∷ es) = serves es

-- How often it began to serve at an endpoint that came with a cleanup; one of Windows has none.
abbrev pub cleanups : List Effect → ℕ
cleanups [] = 0
cleanups (serve true ∷ es) = suc (cleanups es)
cleanups (_ ∷ es) = cleanups es

abbrev pub removals : List Effect → ℕ
removals [] = 0
removals (remove_endpoint true ∷ es) = suc (removals es)
removals (_ ∷ es) = removals es

serves-append : (es fs : List Effect) → serves (es ++ fs) ≡ serves es + serves fs
serves-append [] fs = omega arith
serves-append (listen ∷ es) fs = serves-append es fs
serves-append (serve c ∷ es) fs = omega (arith, serves-append es fs)
serves-append (_ ∷ es) fs = serves-append es fs

cleanups-append : (es fs : List Effect) → cleanups (es ++ fs) ≡ cleanups es + cleanups fs
cleanups-append [] fs = omega arith
cleanups-append (serve true ∷ es) fs = omega (arith, cleanups-append es fs)
cleanups-append (serve false ∷ es) fs = cleanups-append es fs
cleanups-append (_ ∷ es) fs = cleanups-append es fs

removals-append : (es fs : List Effect) → removals (es ++ fs) ≡ removals es + removals fs
removals-append [] fs = omega arith
removals-append (remove_endpoint true ∷ es) fs = omega (arith, removals-append es fs)
removals-append (remove_endpoint false ∷ es) fs = removals-append es fs
removals-append (_ ∷ es) fs = removals-append es fs

abbrev bit : Bool → ℕ
bit true = 1
bit false = 0

-- One call, by what it adds to the history: a service needs a server that has not started, and a
-- removal uses up a cleanup, which only a service may bring.
perform-counts :
    (c : Call) (s : Server)
    → bit s.cleanup ≤ bit s.started
    → (serves (perform c s).1 + bit s.started ≡ bit (perform c s).0.started)
      × (removals (perform c s).1 + bit (perform c s).0.cleanup
          ≡ cleanups (perform c s).1 + bit s.cleanup)
      × (cleanups (perform c s).1 ≤ serves (perform c s).1)
      × (bit (perform c s).0.cleanup ≤ bit (perform c s).0.started)
unfolding perform
perform-counts (starts e) s h = ground arith
perform-counts (fails e) s h = ground arith
perform-counts (stops o) s h = ground arith

run-counts :
    (cs : List Call) (s : Server)
    → bit s.cleanup ≤ bit s.started
    → (serves (run cs s).1 + bit s.started ≡ bit (run cs s).0.started)
      × (removals (run cs s).1 + bit (run cs s).0.cleanup ≡ cleanups (run cs s).1 + bit s.cleanup)
      × (cleanups (run cs s).1 ≤ serves (run cs s).1)
unfolding run
run-counts [] s h = ground arith
run-counts (c ∷ cs) s h =
    let one = perform-counts c s h in
    let rest = run-counts cs (perform c s).0 one.3 in
    omega (
      arith,
      one,
      rest,
      serves-append (perform c s).1 (run cs (perform c s).0).1,
      cleanups-append (perform c s).1 (run cs (perform c s).0).1,
      removals-append (perform c s).1 (run cs (perform c s).0).1,
    )

bit-le-one : (b : Bool) → bit b ≤ 1
bit-le-one true = omega arith
bit-le-one false = omega arith

-- In the life of a server, whatever the order of the calls and the errors they meet, it begins to
-- serve at most once, and removes its endpoint at most as often as it began to serve at one that came
-- with a cleanup; once no cleanup is left to do, these two numbers are equal.
pub serves_and_removes_once :
    (endpoint : String) (cs : List Call)
    → let (s, effects) = run cs (new_server endpoint) in
      (serves effects ≤ 1)
      × (cleanups effects ≤ serves effects)
      × (removals effects ≤ cleanups effects)
      × (s.cleanup ≡ false → removals effects ≡ cleanups effects)
serves_and_removes_once endpoint cs =
    let counts = run-counts cs (new_server endpoint) (omega arith) in
    let top = bit-le-one (run cs (new_server endpoint)).0.started in
    (
      omega (arith, counts, top),
      counts.2,
      omega (arith, counts),
      λ e. omega (arith, counts, ap bit e),
    )

abbrev pub ClosedWell : Option CloseError → Type 0
ClosedWell none = Unit {0}
ClosedWell (some already_closed) = Unit {0}
ClosedWell (some (close_failed e)) = ⊥

shutdown_errors-nil :
    (b : Bool) (o : Outcomes)
    → (shutdown_errors b o ≡ []) ↔ (b ≡ true → (o.shutdown_err ≡ none) × ClosedWell o.listener_err)
unfolding shutdown_errors
shutdown_errors-nil false o = ((λ e p. absurd cc), λ f. refl)
shutdown_errors-nil true o = ((λ e p. ground arith), λ f. let h = f refl in ground arith)

cleanup_errors-nil :
    (b : Bool) (o : Outcomes) → (cleanup_errors b o ≡ []) ↔ (b ≡ true → o.cleanup_err ≡ none)
unfolding cleanup_errors
cleanup_errors-nil false o = ((λ e p. absurd cc), λ f. refl)
cleanup_errors-nil true o = ((λ e p. ground arith), λ f. let h = f refl in ground arith)

append-nil_iff : (xs ys : List ℕ) → (xs ++ ys ≡ []) ↔ ((xs ≡ []) × (ys ≡ []))
append-nil_iff [] ys = ((λ e. (refl, e)), λ h. h.1)
append-nil_iff (x ∷ xs) ys = ((λ e. absurd cc), λ h. absurd cc)

-- `Stop` on a server that is not stopped returns nil exactly if no call that it makes fails, an
-- already closed listener aside, and the serving goroutine has left no error: `Shutdown` and the
-- listener's `Close` count where the server has started, and the cleanup where there is one.
pub stop_nil_iff :
    (o : Outcomes) (s : Server)
    → s.stopped ≡ false
    → ((stop_server o s).1 ≡ []) ↔ (
        (s.started ≡ true → (o.shutdown_err ≡ none) × ClosedWell o.listener_err)
        × (s.cleanup ≡ true → o.cleanup_err ≡ none)
        × (s.serve_err ≡ none))
unfolding stop_server
stop_nil_iff o s h =
    let outer =
      append-nil_iff (shutdown_errors s.started o)
        (cleanup_errors s.cleanup o ++ joined s.serve_err) in
    let inner = append-nil_iff (cleanup_errors s.cleanup o) (joined s.serve_err) in
    rw h (
      (λ e.
          let a = outer.0 e in
          let b = inner.0 a.1 in
          (
            (shutdown_errors-nil s.started o).0 a.0,
            (cleanup_errors-nil s.cleanup o).0 b.0,
            ground (arith, b.1),
          )),
      λ f. outer.1 (
        (shutdown_errors-nil s.started o).1 f.0,
        inner.1 ((cleanup_errors-nil s.cleanup o).1 f.1, ap joined f.2),
      ),
    )

-- Behind a `Stop` that returned nil, a further one returns nil at once: it calls nothing and changes
-- nothing.
stop_again :
    (o o' : Outcomes) (s : Server)
    → (stop_server o s).1 ≡ []
    → stop_server o' (stop_server o s).0 ≡ ((stop_server o s).0, [], [])
unfolding stop_server
stop_again o o' s h = ground arith

-- One call keeps a stopping server stopping, and does not bring it to serve.
perform-stopping :
    (c : Call) (s : Server)
    → s.stopping ≡ true
    → ((perform c s).0.stopping ≡ true) × (serves (perform c s).1 ≡ 0)
unfolding perform
perform-stopping (starts e) s h = ground arith
perform-stopping (fails e) s h = ground arith
perform-stopping (stops o) s h = ground arith

run-stopping : (cs : List Call) (s : Server) → s.stopping ≡ true → serves (run cs s).1 ≡ 0
unfolding run
run-stopping [] s h = refl
run-stopping (c ∷ cs) s h =
    let one = perform-stopping c s h in
    omega (
      arith,
      one.1,
      run-stopping cs (perform c s).0 one.0,
      serves-append (perform c s).1 (run cs (perform c s).0).1,
    )

-- After any call of `Stop`, also one that returned an error, the server never begins to serve: not
-- by a later `Start`, nor by anything else, whatever calls follow.
no_service_after_stop :
    (o : Outcomes) (s : Server) (cs : List Call)
    → s.stopped ≡ false
    → serves (run cs (stop_server o s).0).1 ≡ 0
unfolding stop_server
no_service_after_stop o s cs h = run-stopping cs (stop_server o s).0 (ground arith)
