-- ===== src/Scheduler.antt =====
-- The task scheduler (internal/scheduler/scheduler.go).
mod NextRun
mod RunTask
pub mod NextRunLaws
pub mod Claims
mod Samples
unfoldable pub use NextRun.*
unfoldable pub use RunTask.*
