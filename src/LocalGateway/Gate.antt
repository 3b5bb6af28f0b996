-- ===== src/LocalGateway/Gate.antt =====
-- localgateway/gateway.go: `handlerGate`, and `gatedHandler.ServeHTTP` around it. Each critical
-- section is one step of a system in which any number of goroutines serve requests and wait.
-- `active` counts down on ℕ: the invariant shows that it is positive wherever that happens.
pub mod Laws
mod Tests
use go_toolbelt.Base.{
  ℕ, ◌+◌, ◌-◌, ◌<◌, Bool, true, false, ◌&&◌, Option, none, some, is_some, ◌==◌, if◌then◌else◌,
}
use go_toolbelt.LocalGateway.Cond.{Cond, no_waiters, wait, broadcast, resume}

pub record HandlerGate : Type 0 where
  pub cond : Option Cond
  pub stopping : Bool
  pub active : ℕ

abbrev pub open_gate : HandlerGate
open_gate = record { cond = none; stopping = false; active = 0 }

pub enter : HandlerGate → HandlerGate × Bool
enter g = if g.stopping then (g, false) else (record g { active = g.active + 1 }, true)

pub broadcast_all : Option Cond → Option Cond
broadcast_all none = none
broadcast_all (some c) = some (broadcast c)

pub leave : HandlerGate → HandlerGate
unfolding broadcast_all
leave g =
    if g.active - 1 == 0 && is_some g.cond
    then record g { active = g.active - 1; cond = broadcast_all g.cond }
    else record g { active = g.active - 1 }

unfoldable pub stop : HandlerGate → HandlerGate
stop g = record g { stopping = true }

-- `wait` from the mutex being taken to its release, in `cond.Wait` or at the end: the flag tells
-- whether it returns.
pub wait_drained : HandlerGate → HandlerGate × Bool
wait_drained g =
    let c : Cond = elim g.cond [ none ↦ no_waiters | some c ↦ c ] in
    if g.active == 0
    then (record g { cond = some c }, true)
    else (record g { cond = some (wait c) }, false)

-- A woken caller of `wait` has the mutex again.
pub wake : HandlerGate → HandlerGate
wake g = record g { cond = elim g.cond [ none ↦ none | some c ↦ some (resume c) ] }

abbrev pub waiting : Option Cond → ℕ
waiting none = 0
waiting (some c) = c.waiting

abbrev pub woken : Option Cond → ℕ
woken none = 0
woken (some c) = c.woken

-- The gate, and how many calls of `ServeHTTP` are between `enter` and `leave`.
pub record System : Type 0 where
  pub gate : HandlerGate
  pub running : ℕ

abbrev pub init : System
init = record { gate = open_gate; running = 0 }

-- `ServeHTTP` up to the application's handler: a caller that is turned away gets status 503.
pub admit : System → HandlerGate × Bool → System
admit s (g, true) = record { gate = g; running = s.running + 1 }
admit s (g, false) = record s { gate = g }

pub data Step (s : System) : System → Type 0 where
  request : Step s (admit s (enter s.gate))
  finish : 0 < s.running → Step s (record { gate = leave s.gate; running = s.running - 1 })
  halt : Step s (record s { gate = stop s.gate })
  await : Step s (record s { gate = (wait_drained s.gate).0 })
  retry : 0 < woken s.gate.cond → Step s (record s { gate = (wait_drained (wake s.gate)).0 })

pub data Steps (s : System) : System → Type 0 where
  here : Steps s s
  next : {t u : System} → Steps s t → Step t u → Steps s u
