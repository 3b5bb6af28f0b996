-- ===== src/Process/Control.antt =====
-- process/process.go, process/cancel_nonwindows.go and process/cancel_windows.go: the command that
-- `Start` makes of a `Spec`, and `PID`, `Stop` and `Kill`. A duration is ℤ, in nanoseconds; the
-- environment of the operating system and what a signal returns are arguments.
mod Tests
use go_toolbelt.Base.{
  ◌≡◌, refl, ℕ, Bool, true, false, not, ◌&&◌, String, List, Option, none, some, str_eq,
  if◌then◌else◌, arith,
}
use go_toolbelt.Base.Int.{ℤ, pos, is_nonpositive}
use go_toolbelt.Process.Env.{Extra, merge_env}

pub record Spec : Type 0 where
  pub path : String
  pub args : List String
  pub dir : String
  pub env : Extra
  pub timeout : ℤ
  pub kill_timeout : ℤ

-- Two seconds.
abbrev pub default_kill_timeout : ℤ
default_kill_timeout = pos 2000000000

-- What `os/exec` is given. The context has a deadline where there is a timeout.
pub record Command : Type 0 where
  pub path : String
  pub args : List String
  pub dir : String
  pub env : List String
  pub deadline : Option ℤ
  pub wait_delay : ℤ

abbrev is_positive : ℤ → Bool
is_positive n = not (is_nonpositive n)

pub kill_timeout_of : Spec → ℤ
kill_timeout_of spec =
    if is_nonpositive spec.kill_timeout then default_kill_timeout else spec.kill_timeout

-- `Start` up to the start of the command; without a path there is none.
pub prepare : List String → Spec → Option Command
unfolding kill_timeout_of
prepare environ spec =
    if str_eq spec.path ""
    then none
    else some (record {
      path = spec.path;
      args = spec.args;
      dir = spec.dir;
      env = merge_env environ spec.env;
      deadline = if is_positive spec.timeout then some spec.timeout else none;
      wait_delay = kill_timeout_of spec;
    })

abbrev pub is_deadline : Option ℤ → Bool
is_deadline none = true
is_deadline (some d) = is_positive d

abbrev pub is_bounded : Option Command → Bool
is_bounded none = true
is_bounded (some c) = is_positive c.wait_delay && is_deadline c.deadline

-- Whatever the `Spec` says, the delay behind which a command that was cancelled is killed is positive,
-- and so is its deadline, where it has one: `os/exec` would take a delay of 0 as one without end.
prepare_bounded : (environ : List String) (spec : Spec) → is_bounded (prepare environ spec) ≡ true
unfolding prepare kill_timeout_of
prepare_bounded environ spec = ground arith

pub data Signal : Type 0 where
  interrupt kill : Signal

pub data Platform : Type 0 where
  windows other : Platform

-- Windows has no interrupt to send.
pub cancel_process : Platform → Signal
cancel_process windows = kill
cancel_process other = interrupt

-- The number of a process, without one that was started none; a pid is not 0.
pub pid : Option ℕ → ℕ
pid none = 0
pid (some p) = p

-- `Stop`, and `cmd.Cancel` when the context ends: what is sent to which process, and what it returns.
pub stop : Platform → (Signal → ℕ → Option ℕ) → Option ℕ → Option ℕ
unfolding cancel_process
stop os send none = none
stop os send (some p) = send (cancel_process os) p

pub kill_process : (Signal → ℕ → Option ℕ) → Option ℕ → Option ℕ
kill_process send none = none
kill_process send (some p) = send kill p
