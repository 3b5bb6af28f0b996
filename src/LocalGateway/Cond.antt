-- ===== src/LocalGateway/Cond.antt =====
-- What localgateway uses of `sync.Cond`: how many callers are blocked in `Wait`, and how many have
-- been woken and have not yet taken the mutex again.
use go_toolbelt.Base.{ℕ, zero, suc, ◌+◌, ◌-◌}

pub record Cond : Type 0 where
  pub waiting : ℕ
  pub woken : ℕ

abbrev pub no_waiters : Cond
no_waiters = record { waiting = 0; woken = 0 }

abbrev pub wait : Cond → Cond
wait c = record c { waiting = c.waiting + 1 }

abbrev pub wake_one : ℕ → ℕ → Cond
wake_one zero woken = record { waiting = 0; woken = woken }
wake_one (suc n) woken = record { waiting = n; woken = woken + 1 }

abbrev pub signal : Cond → Cond
signal c = wake_one c.waiting c.woken

abbrev pub broadcast : Cond → Cond
broadcast c = record { waiting = 0; woken = c.woken + c.waiting }

-- A woken caller has the mutex again.
abbrev pub resume : Cond → Cond
resume c = record c { woken = c.woken - 1 }
