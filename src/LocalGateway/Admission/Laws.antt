-- ===== src/LocalGateway/Admission/Laws.antt =====
-- localgateway/admission.go: what holds of every interleaving of the listener's callers.
use go_toolbelt.Base.{ℕ, zero, suc, ◌+◌, ◌<◌, ◌≤◌, ◌≡◌, refl, true, false, List, [], ◌∷◌, arith}
use go_toolbelt.LocalGateway.Admission.{
  AdmissionListener, accept_entry, release, accept_exit, close, AdmittedConn, close_conn, System,
  entered, left, close_at, Step, call, retry, fail, deliver, close_one, shut, Reach, open_conns,
}
use go_toolbelt.LocalGateway.Admission.Invariant.{Reach-IsValid, close_at-cases}

-- In every reachable state the calls between the two sections of `Accept` and the open connections
-- number at most `max` together, and are what `active` counts.
pub admission_bounded :
    (max : ℕ) (s : System)
    → Reach max s
    → (s.pending + open_conns s.conns ≤ max) × (s.listener.active ≡ s.pending + open_conns s.conns)
admission_bounded max s r = let v = Reach-IsValid max s r in omega arith

-- No wakeup is lost: in every reachable state where a call of `Accept` is blocked, the listener is
-- not closed, and a free slot means that a woken call is about to test again.
pub no_lost_wakeup :
    (max : ℕ) (s : System)
    → Reach max s
    → 0 < s.listener.cond.waiting
    → (s.listener.closed ≡ false) × (max ≤ s.listener.active + s.listener.cond.woken)
no_lost_wakeup max s r h = let v = Reach-IsValid max s r in ground arith

-- Any number of steps from one state to another.
pub data Steps (s : System) : System → Type 0 where
  here : Steps s s
  next : {t u : System} → Steps s t → Step t u → Steps s u

Step-closed :
    (s t : System)
    → Step s t
    → s.listener.closed ≡ true
    → (t.listener.closed ≡ true)
      × (open_conns t.conns ≤ open_conns s.conns)
      × (t.pending ≤ s.pending)
unfolding entered accept_entry accept_exit release left close
Step-closed s _ call h = ground arith
Step-closed s _ (retry p) h = ground arith
Step-closed s _ (fail p) h = ground arith
Step-closed s _ (deliver p) h = ground arith
Step-closed s _ (close_one i) h = ground (arith, close_at-cases i s.listener s.conns)
Step-closed s _ shut h = ground arith

-- Once the listener is closed it stays closed, no call gets past the first section of `Accept`, and
-- no connection is handed out: neither count grows, whatever the callers do.
closed_admits_none :
    (s t : System)
    → Steps s t
    → s.listener.closed ≡ true
    → (t.listener.closed ≡ true)
      × (open_conns t.conns ≤ open_conns s.conns)
      × (t.pending ≤ s.pending)
closed_admits_none s _ here h = ground arith
closed_admits_none s _ (next {t} {u} r st) h =
    let ih = closed_admits_none s t r h in
    let one = Step-closed t u st ih.0 in ground (arith, ih, one)

-- A connection gives back its slot once: to close it again changes nothing.
close_at_twice :
    (i : ℕ) (l : AdmissionListener) (cs : List AdmittedConn)
    → close_at i (close_at i l cs).0 (close_at i l cs).1 ≡ close_at i l cs
unfolding close_at close_conn
close_at_twice i l [] = refl
close_at_twice zero l (c ∷ cs) = ground arith
close_at_twice (suc i) l (c ∷ cs) = ground (arith, close_at_twice i l cs)
