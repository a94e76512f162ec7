-- ===== src/Core/AddJob.antt =====
-- `SchedulerCore::addJob` of core/scheduler_core.cpp, by its steps: the record, the slot, the entry
-- in the index, and the first schedule, with the two places that undo the job.
use esp_scheduler.Prelude.{
  ◌+◌, ◌%◌, ◌^◌, ◌&&◌, ◌==◌, if◌then◌else◌, ℕ, Bool, true, false, not, Option, none, some, length,
}
use esp_scheduler.Platform.{Platform}
use esp_scheduler.Schedule.Spec.{ScheduleSpec}
use esp_scheduler.Schedule.Calculator.{validate}
use esp_scheduler.Core.Array.{push_back, pop_back, last_or}
use esp_scheduler.Core.IdIndex.{set_id}
use esp_scheduler.Core.IdIndex
use esp_scheduler.Core.Job.{
  invalid_schedule, no_memory, SchedulerResult, success, failure, JobOptions, CallbackRef,
  DedicatedTaskOptions, callback_valid, present, JobRecord, new_job, assign_name,
  default_task_options,
}
use esp_scheduler.Core.Scheduler.{
  SchedulerCore, Core, clock_valid, slots, job_at, set_job, compute_next_for_job, push_due_or_clear,
  queue_scheduling,
}

abbrev pub options_or : DedicatedTaskOptions → Option DedicatedTaskOptions → DedicatedTaskOptions
options_or d none = d
options_or d (some t) = t

module _ (p : Platform) where
  open p use {DateTime}

  -- The record before its name, its first time and its slot are known.
  unfoldable pub requested_job : ScheduleSpec p → JobOptions → CallbackRef → ℕ → JobRecord p
  unfolding new_job
  requested_job schedule options callback id = record (new_job p) {
    occupied = true;
    id = id;
    schedule = schedule;
    dispatch = options.dispatch;
    overlap = options.overlap;
    executor_id = options.executor_id;
    paused = options.start_paused;
    callback = callback;
    has_dedicated_task_options = present options.dedicated_task;
    dedicated_task = options_or (default_task_options p) options.dedicated_task;
  }

  -- Whether there is a slot, which one, whether it is reused, and the generation found there.
  pub record Placed : Type 0 where
    pub ok : Bool
    pub slot : ℕ
    pub reused : Bool
    pub reused_generation : ℕ
    pub core : SchedulerCore p

  unfoldable pub place_job : Core p → JobRecord p → Placed
  place_job c r =
      let free = c.free_slots.items in
      let slot = last_or free 0 in
      let generation = (job_at p c slot).generation in
      let pushed = push_back p p.size_of_job r c.jobs c.world in
      if length free == 0
      then record {
        ok = pushed.ok;
        slot = slots p c;
        reused = false;
        reused_generation = 0;
        core = record c { jobs = pushed.array; world = pushed.world };
      }
      else record {
        ok = true;
        slot = slot;
        reused = true;
        reused_generation = generation;
        core =
            set_job p (record c { free_slots = pop_back c.free_slots }) slot
              (record r { generation = generation });
      }

  -- The roll back after the index or the pending list had no memory.
  unfoldable pub undo_job : Placed → Core p
  undo_job s =
      let c = s.core in
      let index = (IdIndex.remove c.job_index (job_at p c s.slot).id).1 in
      let pushed = push_back p p.size_of_slot s.slot c.free_slots c.world in
      if s.reused
      then set_job p
          (record c { job_index = index; free_slots = pushed.array; world = pushed.world }) s.slot
          (record (new_job p) { generation = s.reused_generation })
      else record c { job_index = index; jobs = pop_back c.jobs }

  -- The job's first time, once it is in its slot and in the index.
  unfoldable pub start_job : Bool → Placed → DateTime → SchedulerResult ℕ × Core p
  unfolding undo_job
  start_job prime s now =
      let c = s.core in
      let r = job_at p c s.slot in
      let (queued, c') = queue_scheduling p c s.slot now in
      if r.paused
      then (success r.id, c)
      else if prime
      then (success r.id, if r.has_next then push_due_or_clear p c s.slot else c)
      else if queued
      then (success r.id, c')
      else (failure no_memory, undo_job (record s { core = c' }))

  unfoldable pub index_job : Bool → Placed → DateTime → SchedulerResult ℕ × Core p
  unfolding undo_job start_job
  index_job prime s now =
      let c = s.core in
      let (stored, index, world) = set_id p (job_at p c s.slot).id s.slot c.job_index c.world in
      let s' = record s { core = record c { job_index = index; world = world } } in
      if stored then start_job prime s' now else (failure no_memory, undo_job s')

  unfoldable pub admit_job : Bool → Placed → DateTime → SchedulerResult ℕ × Core p
  unfolding index_job
  admit_job prime s now = if s.ok then index_job prime s now else (failure no_memory, s.core)

  unfoldable pub add_job :
      Core p → ScheduleSpec p → JobOptions → CallbackRef → DateTime → SchedulerResult ℕ × Core p
  unfolding requested_job place_job admit_job
  add_job c schedule options callback now =
      let id = c.next_id in
      let (named, name, world) = assign_name p options.name c.world in
      let c' = record c { next_id = (id + 1) % 2 ^ 32; world = world } in
      let r = record (requested_job schedule options callback id) { name = name } in
      let prime = not options.start_paused && clock_valid p c now in
      let first = if prime then (compute_next_for_job p r now).1 else r in
      let s = place_job c' first in
      if not (callback_valid callback)
      then (failure invalid_schedule, c)
      else if not (validate p schedule)
      then (failure invalid_schedule, c)
      else if not named
      then (failure no_memory, c')
      else admit_job prime s now
