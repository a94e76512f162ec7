-- ===== src/Core/Due/Drain.antt =====
-- What `drainPendingSchedules` of core/scheduler_core.cpp does to the jobs whose slots wait in its list.
use esp_scheduler.Prelude.{◌∷◌, ◌||◌, ◌==◌, [], ℕ, Bool, false, List}
use esp_scheduler.Platform.{Platform}
use esp_scheduler.Core.Scheduler.{Core}

abbrev pub waits_in : ℕ → List ℕ → Bool
waits_in s [] = false
waits_in s (x ∷ xs) = x == s || waits_in s xs
