-- ===== src/Schedule.antt =====
-- schedule/: the schedule language and the search for the next occurrence.
pub mod Field
pub mod Spec
pub mod Calculator
