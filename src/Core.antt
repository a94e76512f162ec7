-- ===== src/Core.antt =====
-- core/: the containers, the job table and the scheduler core.
pub mod Array
pub mod DueHeap
pub mod IdIndex
pub mod Job
pub mod Scheduler
pub mod Calls
pub mod AddJob
pub mod Due
pub mod Dispatch
pub mod Wakeup
pub mod Requests
pub mod Indexed
pub mod Sound
