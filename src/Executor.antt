-- ===== src/Executor.antt =====
-- executors/: where jobs run outside the scheduler.
pub mod Task
pub mod Completion
pub mod Pool
