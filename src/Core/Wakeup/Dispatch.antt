-- ===== src/Core/Wakeup/Dispatch.antt =====
-- The event side of core/scheduler_core.cpp keeps every wake-up: due entries are taken out of the heap
-- only where they are stale, or where the job is dispatched or deferred.
use mathlib.Core.List.{eq-or-mem_of_mem-cons, Mem-prop}
use mathlib.Core.List.Perm
use mathlib.Core.Logic.{∥∥₁_elim}
use esp_scheduler.Prelude.{
  ◌<◌, ◌≡◌, ◌≢◌, ◌&&◌, ◌||◌, ◌∷◌, [], ℕ, zero, suc, ap, inl, inr, true, false, not, List, arith,
  ltb, leb, Bool-cases, length,
}
use esp_scheduler.Platform.{Platform}
use esp_scheduler.Core.Job.{new_job}
use esp_scheduler.Core.DueHeap.{DueHeapEntry, DueHeap}
use esp_scheduler.Core.DueHeap
use esp_scheduler.Core.DueHeap.Laws.{pop-IsHeap}
use esp_scheduler.Core.Array.{last_or, pop_back}
use esp_scheduler.Core.Scheduler.{Core, slots, job_at, due_entry, clock_valid}
use esp_scheduler.Core.Dispatch.{
  CoreCall, call_add, call_cancel, call_pause, call_resume, call_cancel_all, call_refresh,
  apply_call, apply_calls, retry_later,
}
use esp_scheduler.Core.Due.{
  drain_one, drain_rounds, drain_pending_schedules, validate_due_entry, pop_due, prune_rounds,
  prune_invalid_due_entries,
}
use esp_scheduler.Core.Wakeup.{
  live, DueIn, Wakes, WakesBut, forget, set-WakesBut, set-quiet, job_at-out,
  push_due_or_clear-Wakes,
}
use esp_scheduler.Core.Wakeup.Calls.{
  reschedule-Wakes, cancel_job-Wakes, pause_job-Wakes, resume_job-Wakes, cancel_all-Wakes,
  refresh_all_schedules-Wakes,
}
use esp_scheduler.Core.Wakeup.Add.{add_job-Wakes}

module _ (p : Platform) where
  open p use {DateTime}

  pub apply_call-Wakes :
      (c : Core p) (call : CoreCall p) → Wakes p c → Wakes p (apply_call p c call)
  unfolding apply_call
  apply_call-Wakes c (call_add schedule options callback now) w =
      add_job-Wakes p c schedule options callback now w
  apply_call-Wakes c (call_cancel id) w = cancel_job-Wakes p c id w
  apply_call-Wakes c (call_pause id) w = pause_job-Wakes p c id w
  apply_call-Wakes c (call_resume id now) w = resume_job-Wakes p c id now w
  apply_call-Wakes c call_cancel_all w = cancel_all-Wakes p c w
  apply_call-Wakes c (call_refresh now) w = refresh_all_schedules-Wakes p c now w

  -- A sequence of calls of the interface, in any order and with any answers, keeps every wake-up.
  pub apply_calls-Wakes :
      (calls : List (CoreCall p)) (c : Core p) → Wakes p c → Wakes p (apply_calls p calls c)
  unfolding apply_calls
  apply_calls-Wakes [] c w = w
  apply_calls-Wakes (call ∷ calls) c w =
      apply_calls-Wakes calls (apply_call p c call) (apply_call-Wakes c call w)

  drain_one-Wakes : (c : Core p) → Wakes p c → Wakes p (drain_one p c)
  unfolding drain_one
  drain_one-Wakes c w =
      let slot = last_or c.pending_schedules.items 0 in
      let r = record (job_at p c slot) { pending_schedule = false } in
      elim (Bool-cases (leb (slots p c) slot)) [
        | inl outside ↦ rw outside w
        | inr inside ↦
            rw inside
              (elim (Bool-cases
                (not r.occupied || (r.canceled || (r.paused || ltb 0 r.running_count)))) [
                  | inl off ↦ rw off (set-quiet p c slot _ (forget p c slot w) (ground arith))
                  | inr on ↦ rw on (
                      reschedule-Wakes p
                        (record c { pending_schedules = pop_back c.pending_schedules }) slot r
                        r.schedule_from_utc (forget p c slot w))
                ])
      ]

  drain_rounds-Wakes : (n : ℕ) (c : Core p) → Wakes p c → Wakes p (drain_rounds p n c)
  unfolding drain_rounds
  drain_rounds-Wakes zero c w = w
  drain_rounds-Wakes (suc n) c w = drain_rounds-Wakes n (drain_one p c) (drain_one-Wakes c w)

  pub drain_pending_schedules-Wakes :
      (c : Core p) (now : DateTime) → Wakes p c → Wakes p (drain_pending_schedules p c now)
  unfolding drain_pending_schedules
  drain_pending_schedules-Wakes c now w = elim (Bool-cases (clock_valid p c now)) [
    | inl valid ↦ rw valid (drain_rounds-Wakes (length c.pending_schedules.items) c w)
    | inr early ↦ rw early w
  ]

  -- Taking out the first entry unsettles the slots that it is the entry of.
  pop_due-DueIn :
      (c : Core p) (i : ℕ)
      → 0 < length c.due_heap.entries.items
      → Wakes p c
      → due_entry p i (job_at p c i) ≢ (DueHeap.pop c.due_heap).0
      → DueIn p c.jobs.items (DueHeap.pop c.due_heap).1.entries.items i
  pop_due-DueIn c i nonempty w other live_i =
      let (ordered, same, least) = pop-IsHeap c.due_heap nonempty w.ordered in
      ∥∥₁_elim (eq-or-mem_of_mem-cons ((Perm.mem_iff same).1 (w.due i live_i))) Mem-prop
        (λ d. elim d [ inl e ↦ absurd (other e) | inr m ↦ m ])

  -- The entry of a live job is a valid one.
  validate-due_entry :
      (c : Core p) (i : ℕ)
      → live p (job_at p c i) ≡ true
      → validate_due_entry p c (due_entry p i (job_at p c i)) ≡ true
  unfolding validate_due_entry new_job
  validate-due_entry c i h = ground (arith, job_at-out p c i)

  pop_stale-Wakes :
      (c : Core p)
      → DueHeap.empty c.due_heap ≡ false
      → validate_due_entry p c (DueHeap.top c.due_heap) ≡ false
      → Wakes p c
      → Wakes p (pop_due p c)
  unfolding DueHeap.pop DueHeap.top DueHeap.empty
  pop_stale-Wakes c nonempty stale w =
      let long : 0 < length c.due_heap.entries.items = ground arith in
      record {
        ordered = (pop-IsHeap c.due_heap long w.ordered).0;
        due = λ i live_i.
            let valid = validate-due_entry c i live_i in
            pop_due-DueIn c i long w (λ e. cc (valid, stale, ap (validate_due_entry p c) e)) live_i;
      }

  prune_rounds-Wakes : (n : ℕ) (c : Core p) → Wakes p c → Wakes p (prune_rounds p n c)
  unfolding prune_rounds
  prune_rounds-Wakes zero c w = w
  prune_rounds-Wakes (suc n) c w =
      let heap = c.due_heap in
      elim (Bool-cases
        (not (DueHeap.empty heap) && not (validate_due_entry p c (DueHeap.top heap)))) [
          | inl stale ↦ rw stale (
              prune_rounds-Wakes n (pop_due p c)
                (pop_stale-Wakes c (ground arith) (ground arith) w))
          | inr kept ↦ rw kept w
        ]

  -- Pruning the heap drops stale entries only.
  pub prune_invalid_due_entries-Wakes :
      (c : Core p) → Wakes p c → Wakes p (prune_invalid_due_entries p c)
  unfolding prune_invalid_due_entries
  prune_invalid_due_entries-Wakes c w = prune_rounds-Wakes (length c.due_heap.entries.items) c w

  pub pop_due-WakesBut :
      (c : Core p)
      → DueHeap.empty c.due_heap ≡ false
      → Wakes p c
      → WakesBut p (DueHeap.top c.due_heap).slot_index (pop_due p c)
  unfolding DueHeap.pop DueHeap.top DueHeap.empty
  pop_due-WakesBut c nonempty w =
      let long : 0 < length c.due_heap.entries.items = ground arith in
      record {
        ordered = (pop-IsHeap c.due_heap long w.ordered).0;
        due = λ i other. pop_due-DueIn c i long w (λ e. other (ap (λ x. x.slot_index) e));
      }

  pub retry_later-Wakes :
      (c : Core p) (s : ℕ) (now : DateTime) → WakesBut p s c → Wakes p (retry_later p c s now)
  unfolding retry_later
  retry_later-Wakes c s now w = push_due_or_clear-Wakes p _ s (set-WakesBut p c s _ w)
