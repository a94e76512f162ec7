-- ===== src/Tests.antt =====
-- Sample inputs for each part, and the theorems applied to them.
pub mod Sample
pub mod Schedule
pub mod Containers
pub mod Core
pub mod Queues
pub mod Service
pub mod Facade
pub mod Executor
pub mod Ready
pub mod Compat
pub mod Sound
