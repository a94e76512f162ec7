-- ===== src/Core/Calls.antt =====
-- The calls of `SchedulerCore` in core/scheduler_core.cpp that change, refresh, look up and count jobs.
use esp_scheduler.Prelude.{
  ◌+◌, ◌&&◌, ◌||◌, ◌∷◌, ◌==◌, if◌then◌else◌, [], ℕ, zero, suc, true, false, not, List, ltb,
}
use esp_scheduler.Platform.{Platform}
use esp_scheduler.Core.Job.{
  no_memory, SchedulerResult, success, failure, JobRecord, JobInfo, new_info, runs_once,
}
use esp_scheduler.Core.Scheduler.{
  is_parallel, Core, slots, job_at, set_job, find_job_slot, queue_scheduling, clear_scheduling,
  finalize_canceled_if_idle, reschedule,
}

module _ (p : Platform) where
  open p use {DateTime}

  -- The writes that `cancelJob` and `cancelAll` make to one slot.
  unfoldable pub cancel_slot : Core p → ℕ → Core p
  unfolding clear_scheduling finalize_canceled_if_idle
  cancel_slot c slot =
      let r = job_at p c slot in
      let c' =
        set_job p c slot
          (record r { canceled = true; paused = false; queued_while_running = false }) in
      finalize_canceled_if_idle p (clear_scheduling p c' slot) slot

  unfoldable pub cancel_job : Core p → ℕ → SchedulerResult (Unit {0}) × Core p
  unfolding find_job_slot cancel_slot
  cancel_job c job_id = elim (find_job_slot p c job_id) [
    | failure e ↦ (failure e, c)
    | success slot ↦ (success tt, cancel_slot c slot)
  ]

  unfoldable pub pause_job : Core p → ℕ → SchedulerResult (Unit {0}) × Core p
  unfolding find_job_slot clear_scheduling
  pause_job c job_id = elim (find_job_slot p c job_id) [
    | failure e ↦ (failure e, c)
    | success slot ↦
        let r = job_at p c slot in
        let c' = set_job p c slot (record r { paused = true; queued_while_running = false }) in
        (success tt, clear_scheduling p c' slot)
  ]

  unfoldable pub resume_job : Core p → ℕ → DateTime → SchedulerResult (Unit {0}) × Core p
  unfolding find_job_slot queue_scheduling
  resume_job c job_id now = elim (find_job_slot p c job_id) [
    | failure e ↦ (failure e, c)
    | success slot ↦
        let r = job_at p c slot in
        let c' = set_job p c slot (record r { paused = false; queued_while_running = false }) in
        let (queued, c'') = queue_scheduling p c' slot now in
        if r.running_count == 0
        then (if queued then (success tt, c'') else (failure no_memory, c''))
        else (success tt, c')
  ]

  -- The loop of `cancelAll`, with the slots left and the next one.
  unfoldable pub cancel_from : ℕ → ℕ → Core p → Core p
  unfolding cancel_slot
  cancel_from zero index c = c
  cancel_from (suc left) index c =
      let r = job_at p c index in
      cancel_from left (index + 1) (if not r.occupied || r.canceled then c else cancel_slot c index)

  unfoldable pub cancel_all : Core p → SchedulerResult (Unit {0}) × Core p
  unfolding cancel_from
  cancel_all c = (success tt, cancel_from (slots p c) 0 c)

  unfoldable pub refresh_slot : Core p → ℕ → DateTime → Core p
  unfolding reschedule
  refresh_slot c index now =
      let r = job_at p c index in
      if not r.occupied || (r.canceled || r.paused)
      then c
      else if runs_once r
      then c
      else if ltb 0 r.running_count && not (is_parallel r.overlap)
      then set_job p c index (record r {
        pending_schedule = false;
        refresh_pending = true;
        queued_while_running = false;
        has_next = false;
        next_run_utc = p.zero_time;
      })
      else reschedule p c index
          (record r {
            pending_schedule = false;
            refresh_pending = false;
            has_next = false;
            next_run_utc = p.zero_time;
          })
          now

  unfoldable pub refresh_from : ℕ → ℕ → DateTime → Core p → Core p
  unfolding refresh_slot
  refresh_from zero index now c = c
  refresh_from (suc left) index now c = refresh_from left (index + 1) now (refresh_slot c index now)

  unfoldable pub refresh_all_schedules : Core p → DateTime → SchedulerResult (Unit {0}) × Core p
  unfolding refresh_from
  refresh_all_schedules c now = (success tt, refresh_from (slots p c) 0 now c)

  unfoldable pub count_jobs : List (JobRecord p) → ℕ
  count_jobs [] = 0
  count_jobs (r ∷ rs) = (if r.occupied && not r.canceled then 1 else 0) + count_jobs rs

  unfoldable pub job_count : Core p → SchedulerResult ℕ
  unfolding count_jobs
  job_count c = success (count_jobs c.jobs.items)

  unfoldable pub get_job_info : Core p → ℕ → SchedulerResult (Unit {0}) × JobInfo p
  unfolding find_job_slot new_info
  get_job_info c job_id = elim (find_job_slot p c job_id) [
    | failure e ↦ (failure e, new_info p)
    | success slot ↦
        let r = job_at p c slot in
        (
          success tt,
          record {
            id = r.id;
            name = r.name;
            paused = r.paused;
            running = ltb 0 r.running_count;
            queued_while_running = r.queued_while_running;
            dispatch = r.dispatch;
            overlap = r.overlap;
            executor_id = r.executor_id;
            has_next = r.has_next;
            next_run_utc = r.next_run_utc;
            schedule = r.schedule;
          },
        )
  ]

  unfoldable pub sum_running : List (JobRecord p) → ℕ
  sum_running [] = 0
  sum_running (r ∷ rs) = r.running_count + sum_running rs

  unfoldable pub active_invocation_count : Core p → ℕ
  unfolding sum_running
  active_invocation_count c = sum_running c.jobs.items
