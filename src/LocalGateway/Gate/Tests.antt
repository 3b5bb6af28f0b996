-- ===== src/LocalGateway/Gate/Tests.antt =====
-- localgateway/gateway.go: a gate with one handler, which ends before the gate is drained.
use go_toolbelt.Base.{◌≡◌, refl, true, false, some, arith}
use go_toolbelt.LocalGateway.Gate.{
  enter, leave, stop, wait_drained, System, init, admit, request, finish, halt, await, Steps, here,
  next,
}
use go_toolbelt.LocalGateway.Gate.Laws.{drained_for_good}

-- One handler runs, and a call of `wait` is blocked.
abbrev blocked_gate : System
blocked_gate = record {
  gate = record { cond = some (record { waiting = 1; woken = 0 }); stopping = true; active = 1 };
  running = 1;
}

blocked_reached : Steps init blocked_gate
unfolding enter admit stop wait_drained
blocked_reached = next (next (next here request) halt) await

-- The handler has ended, and the call has been woken.
abbrev drained : System
drained = record {
  gate = record { cond = some (record { waiting = 0; woken = 1 }); stopping = true; active = 0 };
  running = 0;
}

drained_reached : Steps init drained
unfolding enter leave admit stop wait_drained
drained_reached = next (next (next (next here request) halt) await) (finish (omega arith))

drain_returns : (wait_drained drained.gate).1 ≡ true
unfolding wait_drained
drain_returns = refl

-- A request that comes afterwards is turned away.
late_request : Steps (record drained { gate = (wait_drained drained.gate).0 }) drained
unfolding wait_drained enter admit
late_request = next here request

drained_for_good_example :
    (drained.running ≡ 0) × (drained.running ≡ 0) × ((enter drained.gate).1 ≡ false)
drained_for_good_example =
    drained_for_good drained drained drained_reached refl drain_returns late_request
