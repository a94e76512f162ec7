-- ===== src/Facade/Settings.antt =====
-- The questions of scheduler.cpp that need no core: the bound on valid time, the ids of the executors that
-- are always there, and the next time of a schedule.
use esp_scheduler.Prelude.{◌||◌, if◌then◌else◌, ℕ, not, Option, none, some, ℤ, pos}
use esp_scheduler.Platform.{Platform}
use esp_scheduler.Freertos.{Queues}
use esp_scheduler.Schedule.Spec.{ScheduleSpec}
use esp_scheduler.Schedule.Calculator.{compute_next}
use esp_scheduler.Facade.{is_worker_pool}
use esp_scheduler.Facade.Requests.{EspScheduler}

module _ (p : Platform) (q : Queues) where
  open p use {DateTime}

  unfoldable pub min_valid_unix_seconds : EspScheduler p q → ℤ
  min_valid_unix_seconds none = pos 1577836800
  min_valid_unix_seconds (some i) = i.config.min_valid_epoch_seconds

  -- `kInvalidExecutorId`
  abbrev pub invalid_executor_id : ℕ
  invalid_executor_id = 255

  unfoldable pub default_worker_executor : EspScheduler p q → ℕ
  default_worker_executor none = invalid_executor_id
  default_worker_executor (some i) =
      if is_worker_pool i.config.default_async_backend then 0 else invalid_executor_id

  unfoldable pub default_esp_worker_executor : EspScheduler p q → ℕ
  default_esp_worker_executor none = invalid_executor_id
  default_esp_worker_executor (some i) =
      if is_worker_pool i.config.default_async_backend || not i.config.esp_worker
      then invalid_executor_id
      else 0

  abbrev pub default_dedicated_executor : ℕ
  default_dedicated_executor = 1

  unfoldable pub compute_next_occurrence :
      ScheduleSpec p → DateTime → EspScheduler p q → Option DateTime
  unfolding compute_next
  compute_next_occurrence schedule from_utc none = none
  compute_next_occurrence schedule from_utc (some i) = compute_next p schedule from_utc
