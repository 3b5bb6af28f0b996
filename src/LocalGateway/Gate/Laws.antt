-- ===== src/LocalGateway/Gate/Laws.antt =====
-- localgateway/gateway.go: what the handler gate guarantees to `Stop`.
use go_toolbelt.Base.{◌<◌, ◌≤◌, ◌≡◌, true, false, ◌⊎◌, arith}
use go_toolbelt.LocalGateway.Gate.{
  enter, leave, stop, wait_drained, wake, waiting, System, init, admit, Step, request, finish, halt,
  await, retry, Steps, here, next,
}

-- `active` counts the handlers that run, and a call of `wait` is blocked only while there are some.
record IsValid (s : System) : Type 0 where
  counted : s.gate.active ≡ s.running
  blocked : (waiting s.gate.cond ≡ 0) ⊎ (0 < s.running)

Step-IsValid : (s t : System) → Step s t → IsValid s → IsValid t
unfolding enter leave stop wait_drained wake admit
Step-IsValid s _ request v = ground arith
Step-IsValid s _ (finish h) v = ground arith
Step-IsValid s _ halt v = ground arith
Step-IsValid s _ await v = ground arith
Step-IsValid s _ (retry h) v = ground arith

Steps-IsValid : (s : System) → Steps init s → IsValid s
Steps-IsValid _ here = ground arith
Steps-IsValid _ (next {t} {u} r st) = Step-IsValid t u st (Steps-IsValid t r)

-- In every reachable state a blocked call of `wait` has a handler to wait for, whose `leave` will
-- wake it, and `active` is the number of handlers that run.
blocked_while_running :
    (s : System)
    → Steps init s
    → (s.gate.active ≡ s.running) × (0 < waiting s.gate.cond → 0 < s.running)
blocked_while_running s r = let v = Steps-IsValid s r in (v.counted, λ h. ground arith)

Step-stopped :
    (s t : System)
    → Step s t
    → s.gate.stopping ≡ true
    → (t.gate.stopping ≡ true) × (t.running ≤ s.running)
unfolding enter leave stop wait_drained wake admit
Step-stopped s _ request h = ground arith
Step-stopped s _ (finish p) h = ground arith
Step-stopped s _ halt h = ground arith
Step-stopped s _ await h = ground arith
Step-stopped s _ (retry p) h = ground arith

Steps-stopped :
    (s t : System)
    → Steps s t
    → s.gate.stopping ≡ true
    → (t.gate.stopping ≡ true) × (t.running ≤ s.running)
Steps-stopped s _ here h = ground arith
Steps-stopped s _ (next {t} {u} r st) h =
    let ih = Steps-stopped s t r h in let one = Step-stopped t u st ih.0 in ground (arith, ih, one)

-- Once the gate is stopped and a call of `wait` has returned, no handler runs, and none ever enters,
-- whatever steps follow.
pub drained_for_good :
    (s t : System)
    → Steps init s
    → s.gate.stopping ≡ true
    → (wait_drained s.gate).1 ≡ true
    → Steps (record s { gate = (wait_drained s.gate).0 }) t
    → (s.running ≡ 0) × (t.running ≡ 0) × ((enter t.gate).1 ≡ false)
unfolding wait_drained enter
drained_for_good s t r h w later =
    let v = Steps-IsValid s r in
    let z : s.running ≡ 0 = ground (arith, v.counted) in
    let after =
      Steps-stopped (record s { gate = (wait_drained s.gate).0 }) t later (ground arith) in
    (z, omega (arith, after.1), ground (arith, after.0))
