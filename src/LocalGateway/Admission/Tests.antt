-- ===== src/LocalGateway/Admission/Tests.antt =====
-- localgateway/admission.go: a listener with one slot, which two calls of `Accept` want.
use go_toolbelt.Base.{ℕ, ◌+◌, ◌≤◌, ◌≡◌, refl, Bool, true, false, [], ◌∷◌, arith}
use go_toolbelt.LocalGateway.Admission.{
  AdmissionListener, new_admission_listener, accept_entry, accept_exit, close, AdmittedConn, System,
  entered, left, call, deliver, Reach, start, later, open_conns,
}
use go_toolbelt.LocalGateway.Admission.Laws.{admission_bounded, no_lost_wakeup, Steps, here, next}

abbrev listener_of : ℕ → Bool → ℕ → ℕ → AdmissionListener
listener_of active closed waiting woken = record {
  max = 1;
  active = active;
  closed = closed;
  cond = record { waiting = waiting; woken = woken };
}

abbrev open_conn : AdmittedConn
open_conn = record { released = false }

-- One connection is handed out, and a second call is blocked.
abbrev full : System
full = record { listener = listener_of 1 false 1 0; pending = 0; conns = open_conn ∷ [] }

-- The same, closed: the blocked call has been woken.
abbrev full_closed : System
full_closed = record { listener = listener_of 1 true 0 1; pending = 0; conns = open_conn ∷ [] }

full_reached : Reach 1 full
unfolding accept_entry accept_exit entered left new_admission_listener
full_reached = later (later (later start call) (deliver (omega arith))) call

admission_bounded_example : (0 + open_conns full.conns ≤ 1) × (1 ≡ 0 + open_conns full.conns)
admission_bounded_example = admission_bounded 1 full full_reached

no_lost_wakeup_example : (full.listener.closed ≡ false) × (1 ≤ 1 + 0)
no_lost_wakeup_example = no_lost_wakeup 1 full full_reached (omega arith)

still_closed : Steps full_closed full_closed
unfolding accept_entry entered
still_closed = next here call

closed_in_time : close full.listener ≡ full_closed.listener
unfolding close
closed_in_time = refl
