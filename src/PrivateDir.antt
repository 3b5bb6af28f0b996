-- ===== src/PrivateDir.antt =====
-- privatedir. Path: the paths that `Ensure` and `Validate` take (privatedir.go); Unix: what they do
-- with one on Linux and macOS (privatedir_unix.go); Windows: on Windows (privatedir_windows.go).
pub mod Path
pub mod Unix
pub mod Windows
