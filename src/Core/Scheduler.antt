-- ===== src/Core/Scheduler.antt =====
-- `SchedulerCore` of core/scheduler_core.h and scheduler_core.cpp: its state, and what its methods share
-- on one job. A slot is read as `job_at` and written back by `set_job`; a C++ reference
-- into `jobs_` is such a pair. What a `bool` call changes stands beside its answer.
use esp_scheduler.Prelude.{
  ◌+◌, ◌%◌, ◌^◌, ◌&&◌, ◌||◌, ◌==◌, if◌then◌else◌, ℕ, Bool, true, false, not, none, some, leb,
  length, get_or, set, ℤ, leb_ℤ,
}
use esp_scheduler.Platform.{Platform}
use esp_scheduler.Schedule.Calculator.{compute_next}
use esp_scheduler.Core.Array.{SchedulerArray, empty_array, push_back}
use esp_scheduler.Core.DueHeap.{DueHeapEntry, DueHeap}
use esp_scheduler.Core.DueHeap
use esp_scheduler.Core.IdIndex.{IdIndex, empty_index, set_id}
use esp_scheduler.Core.IdIndex
use esp_scheduler.Core.Job.{
  not_found, SchedulerResult, success, failure, empty_callback, JobRecord, new_job, runs_once,
  allow_parallel, OverlapPolicy,
}

pub record SchedulerCore (p : Platform) : Type 0 where
  pub min_valid_epoch_seconds : ℤ
  pub next_id : ℕ
  pub jobs : SchedulerArray (JobRecord p)
  pub free_slots : SchedulerArray ℕ
  pub pending_schedules : SchedulerArray ℕ
  pub job_index : IdIndex
  pub due_heap : DueHeap
  -- The allocator, and what else lies outside.
  pub world : p.World

abbrev pub is_parallel : OverlapPolicy → Bool
is_parallel allow_parallel = true
is_parallel _ = false

module _ (p : Platform) where
  open p use {DateTime}

  abbrev pub Core : Type 0
  Core = SchedulerCore p

  unfoldable pub new_core : ℤ → p.World → Core
  new_core min_epoch world = record {
    min_valid_epoch_seconds = min_epoch;
    next_id = 1;
    jobs = empty_array;
    free_slots = empty_array;
    pending_schedules = empty_array;
    job_index = empty_index;
    due_heap = record { entries = empty_array };
    world = world;
  }

  unfoldable pub set_min_valid_unix_seconds : Core → ℤ → Core
  set_min_valid_unix_seconds c min_epoch = record c { min_valid_epoch_seconds = min_epoch }

  unfoldable pub clock_valid : Core → DateTime → Bool
  clock_valid c now = leb_ℤ c.min_valid_epoch_seconds (p.epoch_seconds now)

  abbrev pub slots : Core → ℕ
  slots c = length c.jobs.items

  abbrev pub job_at : Core → ℕ → JobRecord p
  job_at c i = get_or c.jobs.items i (new_job p)

  abbrev pub set_job : Core → ℕ → JobRecord p → Core
  set_job c i r = record c { jobs = record (c.jobs) { items = set c.jobs.items i r } }

  unfoldable pub find_job_slot : Core → ℕ → SchedulerResult ℕ
  find_job_slot c job_id = elim (IdIndex.get c.job_index job_id) [
    | none ↦ failure not_found
    | some slot ↦
        let r = job_at c slot in
        if leb (slots c) slot
        then failure not_found
        else if not r.occupied || (r.canceled || not (r.id == job_id))
        then failure not_found
        else success slot
  ]

  unfoldable pub compute_next_for_job : JobRecord p → DateTime → Bool × JobRecord p
  compute_next_for_job r from_utc =
      if r.canceled || r.paused
      then (false, record r { has_next = false })
      else if runs_once r
      then (
        true,
        record r {
          refresh_pending = false;
          next_run_utc = r.schedule.once_at_utc;
          has_next = true;
        },
      )
      else elim (compute_next p r.schedule from_utc) [
        | none ↦ (false, record r { refresh_pending = false; has_next = false })
        | some t ↦ (true, record r { refresh_pending = false; next_run_utc = t; has_next = true })
      ]

  abbrev pub due_entry : ℕ → JobRecord p → DueHeapEntry
  due_entry slot r = record {
    next_epoch = p.epoch_seconds r.next_run_utc;
    slot_index = slot;
    generation = r.generation;
  }

  unfoldable pub push_due : Core → ℕ → JobRecord p → Bool × Core
  push_due c slot r =
      let (ok, heap, world) = DueHeap.push p (due_entry slot r) c.due_heap c.world in
      if not r.occupied || (r.canceled || not r.has_next)
      then (true, c)
      else (ok, record c { due_heap = heap; world = world })

  -- `if (!pushDue(slot, record)) record.hasNext = false;`
  unfoldable pub push_due_or_clear : Core → ℕ → Core
  unfolding push_due
  push_due_or_clear c slot =
      let r = job_at c slot in
      let (ok, c') = push_due c slot r in
      if ok then c' else set_job c' slot (record r { has_next = false })

  unfoldable pub queue_scheduling : Core → ℕ → DateTime → Bool × Core
  queue_scheduling c slot from_utc =
      let r = job_at c slot in
      let r' = record r { schedule_from_utc = from_utc; has_next = false } in
      let pushed = push_back p p.size_of_slot slot c.pending_schedules c.world in
      let c' = record c { pending_schedules = pushed.array; world = pushed.world } in
      if leb (slots c) slot
      then (false, c)
      else if not r.occupied || (r.canceled || r.paused)
      then (
        true,
        set_job c slot
            (record r { pending_schedule = false; has_next = false; refresh_pending = false }),
      )
      else if r.pending_schedule
      then (true, set_job c slot r')
      else (pushed.ok, set_job c' slot (record r' { pending_schedule = pushed.ok }))

  unfoldable pub clear_scheduling : Core → ℕ → Core
  clear_scheduling c slot =
      let r = job_at c slot in
      if leb (slots c) slot
      then c
      else set_job c slot
          (record r { pending_schedule = false; has_next = false; refresh_pending = false })

  unfoldable pub retire_job : Core → ℕ → Core
  retire_job c slot =
      let r = job_at c slot in
      let index = if r.id == 0 then c.job_index else (IdIndex.remove c.job_index r.id).1 in
      let pushed = push_back p p.size_of_slot slot c.free_slots c.world in
      let c' = record c { job_index = index; free_slots = pushed.array; world = pushed.world } in
      if leb (slots c) slot
      then c
      else set_job c' slot (record r {
        occupied = false;
        canceled = false;
        paused = false;
        queued_while_running = false;
        has_next = false;
        pending_schedule = false;
        refresh_pending = false;
        running_count = 0;
        callback = empty_callback;
        name = none;
        id = 0;
        generation = (r.generation + 1) % 2 ^ 32;
      })

  unfoldable pub finalize_canceled_if_idle : Core → ℕ → Core
  unfolding retire_job
  finalize_canceled_if_idle c slot =
      let r = job_at c slot in
      if leb (slots c) slot
      then c
      else if r.occupied && (r.canceled && r.running_count == 0)
      then retire_job c slot
      else c

  -- `computeNextForJob(record, from)` on a slot, and `pushDue` where it answers yes.
  unfoldable pub reschedule : Core → ℕ → JobRecord p → DateTime → Core
  unfolding compute_next_for_job push_due_or_clear
  reschedule c slot r from_utc =
      let (found, r') = compute_next_for_job r from_utc in
      let c' = set_job c slot r' in if found then push_due_or_clear c' slot else c'
