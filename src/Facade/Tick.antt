-- ===== src/Facade/Tick.antt =====
-- `tick` of scheduler.cpp: what manual mode does in place of the service's task.
use esp_scheduler.Prelude.{◌||◌, if◌then◌else◌, ℕ, not, none, some}
use esp_scheduler.Platform.{Platform}
use esp_scheduler.Freertos.{Queues}
use esp_scheduler.Core.Calls.{refresh_all_schedules}
use esp_scheduler.Core.Dispatch.{dispatch_due}
use esp_scheduler.Facade.{
  Impl, Outside, is_background, resolver, drain_manual_events, refresh_time_context_if_needed,
}
use esp_scheduler.Facade.Requests.{EspScheduler}

module _ (p : Platform) (q : Queues) where
  open p use {DateTime}

  -- `tick` in manual mode, with the rounds of the loop of `dispatchDue`.
  unfoldable pub tick_manual : Outside p → ℕ → DateTime → Impl p q → Impl p q
  unfolding drain_manual_events refresh_time_context_if_needed resolver
  tick_manual outside rounds now i =
      let (refresh, observed) =
        refresh_time_context_if_needed p q now (drain_manual_events p q outside now i) in
      let refreshed =
        if refresh
        then record observed { manual_core = (refresh_all_schedules p observed.manual_core now).1 }
        else observed in
      let c = dispatch_due p (resolver p q outside refreshed) rounds now refreshed.manual_core in
      drain_manual_events p q outside now (record refreshed { manual_core = c })

  unfoldable pub tick_impl : Outside p → ℕ → DateTime → Impl p q → Impl p q
  unfolding tick_manual
  tick_impl outside rounds now i =
      if not i.started || is_background i.config.mode then i else tick_manual outside rounds now i

  unfoldable pub tick : Outside p → ℕ → DateTime → EspScheduler p q → EspScheduler p q
  unfolding tick_impl
  tick outside rounds now none = none
  tick outside rounds now (some i) = some (tick_impl outside rounds now i)
