-- ===== src/Core/Due.antt =====
-- The due jobs of `SchedulerCore`, core/scheduler_core.cpp: the list of jobs to schedule is drained, stale
-- entries are pruned from the heap, and the next due time is read off.
pub mod Expected
pub mod Drain
use esp_scheduler.Prelude.{
  ◌&&◌, ◌||◌, ◌==◌, if◌then◌else◌, ℕ, zero, suc, Bool, false, not, Option, none, some, ltb, leb,
  length, ℤ, eq_ℤ,
}
use esp_scheduler.Platform.{Platform}
use esp_scheduler.Core.Array.{pop_back, last_or}
use esp_scheduler.Core.DueHeap.{DueHeapEntry, DueHeap}
use esp_scheduler.Core.DueHeap
use esp_scheduler.Core.Scheduler.{Core, clock_valid, slots, job_at, set_job, reschedule}

module _ (p : Platform) where
  open p use {DateTime}

  -- One round of `drainPendingSchedules`, on the last slot of the list.
  unfoldable pub drain_one : Core p → Core p
  drain_one c =
      let slot = last_or c.pending_schedules.items 0 in
      let c' = record c { pending_schedules = pop_back c.pending_schedules } in
      let r = record (job_at p c slot) { pending_schedule = false } in
      if leb (slots p c) slot
      then c'
      else if not r.occupied || (r.canceled || (r.paused || ltb 0 r.running_count))
      then set_job p c' slot (record r { has_next = false })
      else reschedule p c' slot r r.schedule_from_utc

  -- Each round takes one slot off the list and adds none.
  unfoldable pub drain_rounds : ℕ → Core p → Core p
  unfolding drain_one
  drain_rounds zero c = c
  drain_rounds (suc left) c = drain_rounds left (drain_one c)

  unfoldable pub drain_pending_schedules : Core p → DateTime → Core p
  unfolding drain_rounds
  drain_pending_schedules c now =
      if clock_valid p c now then drain_rounds (length c.pending_schedules.items) c else c

  unfoldable pub validate_due_entry : Core p → DueHeapEntry → Bool
  validate_due_entry c entry =
      let r = job_at p c entry.slot_index in
      if leb (slots p c) entry.slot_index
      then false
      else (r.occupied && (not r.canceled && r.has_next))
        && (r.generation == entry.generation
            && eq_ℤ (p.epoch_seconds r.next_run_utc) entry.next_epoch)

  abbrev pub pop_due : Core p → Core p
  pop_due c = record c { due_heap = (DueHeap.pop c.due_heap).1 }

  -- The loop of `pruneInvalidDueEntries`: each round takes out an entry.
  unfoldable pub prune_rounds : ℕ → Core p → Core p
  prune_rounds zero c = c
  prune_rounds (suc left) c =
      let rest = prune_rounds left (pop_due c) in
      if not (DueHeap.empty c.due_heap) && not (validate_due_entry c (DueHeap.top c.due_heap))
      then rest
      else c

  unfoldable pub prune_invalid_due_entries : Core p → Core p
  unfolding prune_rounds
  prune_invalid_due_entries c = prune_rounds (length c.due_heap.entries.items) c

  unfoldable pub next_due_epoch : Core p → Option ℤ × Core p
  unfolding prune_invalid_due_entries
  next_due_epoch c =
      let c' = prune_invalid_due_entries c in
      (if DueHeap.empty c'.due_heap then none else some ((DueHeap.top c'.due_heap).next_epoch), c')
