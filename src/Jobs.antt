-- ===== src/Jobs.antt =====
-- examples/advanced-jobs/main.go. Manager: the job manager, its goroutines and its callers;
-- Commands: the adapters for the command line and for HTTP; Scanner: the reading of the lines.
pub mod Manager
pub mod Commands
pub mod Scanner
