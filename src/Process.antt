-- ===== src/Process.antt =====
-- process/process.go. Events: the events of a process and the result that `collect` makes; Env:
-- `mergeEnv`; Sinks: `WriterSink` and `Scrollback`. Running a program is a parameter: what
-- `os/exec` returns is an argument. A nil sink is left out.
pub mod Events
pub mod Lifetime
pub mod Control
pub mod Env
pub mod Sinks
