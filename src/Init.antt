-- ===== src/Init.antt =====
-- init/: the scheduler and the supervisor above it.
pub mod State
pub mod Calls
pub mod Sched
pub mod Watchdog
mod Tests
