-- ===== src/Core/Dispatch/Depth/Calls.antt =====
-- No call of the interface of core/scheduler_core.cpp defers a run.
use esp_scheduler.Prelude.{
  ◌+◌, ◌-◌, ◌%◌, ◌^◌, ◌≡◌, ◌∙◌, ◌&&◌, ◌||◌, ◌∷◌, ◌==◌, if◌then◌else◌, [], ℕ, zero, suc, refl, inl,
  inr, Bool, false, not, List, arith, ltb, Bool-cases, length, init, length-init, get_or-init,
  get_or-append, get_or-out,
}
use esp_scheduler.Platform.{Platform}
use esp_scheduler.Schedule.Spec.{ScheduleSpec}
use esp_scheduler.Schedule.Calculator.{validate}
use esp_scheduler.Core.Array.{push_back_lem, pop_back, last_or}
use esp_scheduler.Core.IdIndex.{set_id}
use esp_scheduler.Core.Job.{
  JobRecord, JobOptions, CallbackRef, new_job, Result-cases, runs_once, callback_valid, assign_name,
}
use esp_scheduler.Core.Scheduler.{
  Core, slots, job_at, set_job, is_parallel, clock_valid, compute_next_for_job, queue_scheduling,
  find_job_slot,
}
use esp_scheduler.Core.Calls.{
  cancel_slot, cancel_job, pause_job, resume_job, cancel_from, cancel_all, refresh_slot,
  refresh_from, refresh_all_schedules,
}
use esp_scheduler.Core.AddJob.{
  Placed, requested_job, place_job, undo_job, start_job, index_job, admit_job, add_job,
}
use esp_scheduler.Core.Dispatch.{
  CoreCall, call_add, call_cancel, call_pause, call_resume, call_cancel_all, call_refresh,
  apply_call, apply_calls,
}
use esp_scheduler.Core.Dispatch.Depth.{
  NotQueued, set-NotQueued, push_due_or_clear-NotQueued, reschedule-NotQueued,
  compute_next_for_job-queued, queue_scheduling-NotQueued, clear_scheduling-NotQueued,
  cancel_slot-NotQueued,
}

module _ (p : Platform) (s : ℕ) where
  open p use {DateTime}

  cancel_job-NotQueued :
      (c : Core p) (id : ℕ) → NotQueued p s c → NotQueued p s (cancel_job p c id).1
  unfolding cancel_job
  cancel_job-NotQueued c id q = elim (Result-cases (find_job_slot p c id)) [
    | inl (e, missing) ↦ rw (missing, cancel_job) q
    | inr (t, found) ↦ rw (found, cancel_job) (cancel_slot-NotQueued p s c t q)
  ]

  pause_job-NotQueued : (c : Core p) (id : ℕ) → NotQueued p s c → NotQueued p s (pause_job p c id).1
  unfolding pause_job
  pause_job-NotQueued c id q = elim (Result-cases (find_job_slot p c id)) [
    | inl (e, missing) ↦ rw (missing, pause_job) q
    | inr (t, found) ↦
        rw (found, pause_job)
          (clear_scheduling-NotQueued p s _ t (set-NotQueued p s c t _ q (inl refl)))
  ]

  resume_job-NotQueued :
      (c : Core p) (id : ℕ) (now : DateTime)
      → NotQueued p s c
      → NotQueued p s (resume_job p c id now).1
  unfolding resume_job
  resume_job-NotQueued c id now q = elim (Result-cases (find_job_slot p c id)) [
    | inl (e, missing) ↦ rw (missing, resume_job) q
    | inr (t, found) ↦
        let r = job_at p c t in
        let r' = record r { paused = false; queued_while_running = false } in
        let c' = set_job p c t r' in
        let q' = set-NotQueued p s c t r' q (inl refl) in
        let queued = queue_scheduling-NotQueued p s c' t now q' in
        rw (found, resume_job)
          (elim (Bool-cases (r.running_count == 0)) [
            | inl idle ↦ rw idle (elim (Bool-cases (queue_scheduling p c' t now).0) [
              | inl ok ↦ rw ok queued
              | inr full ↦ rw full queued
            ])
            | inr busy ↦ rw busy q'
          ])
  ]

  cancel_from-NotQueued :
      (n i : ℕ) (c : Core p) → NotQueued p s c → NotQueued p s (cancel_from p n i c)
  unfolding cancel_from
  cancel_from-NotQueued zero i c q = q
  cancel_from-NotQueued (suc n) i c q =
      let r = job_at p c i in
      elim (Bool-cases (not r.occupied || r.canceled)) [
        | inl skip ↦ rw (skip, cancel_from) (cancel_from-NotQueued n (i + 1) c q)
        | inr hit ↦
            rw (hit, cancel_from)
              (cancel_from-NotQueued n (i + 1) (cancel_slot p c i)
                (cancel_slot-NotQueued p s c i q))
      ]

  refresh_slot-NotQueued :
      (c : Core p) (i : ℕ) (now : DateTime)
      → NotQueued p s c
      → NotQueued p s (refresh_slot p c i now)
  unfolding refresh_slot
  refresh_slot-NotQueued c i now q =
      let r = job_at p c i in
      elim (Bool-cases (not r.occupied || (r.canceled || r.paused))) [
        | inl off ↦ rw off q
        | inr on ↦ rw on (elim (Bool-cases (runs_once r)) [
          | inl once ↦ rw once q
          | inr again ↦
              rw again (elim (Bool-cases (ltb 0 r.running_count && not (is_parallel r.overlap))) [
                | inl busy ↦ rw busy (set-NotQueued p s c i _ q (inl refl))
                | inr free ↦ rw free (
                    reschedule-NotQueued p s c i
                      (record r {
                        pending_schedule = false;
                        refresh_pending = false;
                        has_next = false;
                        next_run_utc = p.zero_time;
                      })
                      now q refl)
              ])
        ])
      ]

  refresh_from-NotQueued :
      (n i : ℕ) (now : DateTime) (c : Core p)
      → NotQueued p s c
      → NotQueued p s (refresh_from p n i now c)
  unfolding refresh_from
  refresh_from-NotQueued zero i now c q = q
  refresh_from-NotQueued (suc n) i now c q =
      refresh_from-NotQueued n (i + 1) now (refresh_slot p c i now)
        (refresh_slot-NotQueued c i now q)

  pop_back-NotQueued :
      (c : Core p) → NotQueued p s c → NotQueued p s (record c { jobs = pop_back c.jobs })
  unfolding pop_back new_job
  pop_back-NotQueued c q =
      let jobs = c.jobs.items in
      ground (
        arith,
        length-init jobs,
        get_or-init jobs s (new_job p),
        get_or-out (init jobs) s (new_job p),
      )

  undo_job-NotQueued : (a : Placed p) → NotQueued p s a.core → NotQueued p s (undo_job p a)
  unfolding undo_job new_job
  undo_job-NotQueued a q = elim (Bool-cases a.reused) [
    | inl again ↦ rw again (set-NotQueued p s a.core a.slot _ q (inl refl))
    | inr fresh ↦ rw fresh (pop_back-NotQueued a.core q)
  ]

  start_job-NotQueued :
      (prime : Bool) (a : Placed p) (now : DateTime)
      → NotQueued p s a.core
      → NotQueued p s (start_job p prime a now).1
  unfolding start_job
  start_job-NotQueued prime a now q =
      let c = a.core in
      let r = job_at p c a.slot in
      let queued = queue_scheduling-NotQueued p s c a.slot now q in
      let again = record a { core = (queue_scheduling p c a.slot now).1 } in
      elim (Bool-cases r.paused) [
        | inl paused ↦ rw paused q
        | inr active ↦ rw active (elim (Bool-cases prime) [
          | inl first ↦ rw first (elim (Bool-cases r.has_next) [
            | inl next ↦ rw next (push_due_or_clear-NotQueued p s c a.slot q)
            | inr no_next ↦ rw no_next q
          ])
          | inr later ↦ rw later (elim (Bool-cases (queue_scheduling p c a.slot now).0) [
            | inl ok ↦ rw ok queued
            | inr full ↦ rw full (undo_job-NotQueued again queued)
          ])
        ])
      ]

  admit_job-NotQueued :
      (prime : Bool) (a : Placed p) (now : DateTime)
      → NotQueued p s a.core
      → NotQueued p s (admit_job p prime a now).1
  unfolding admit_job index_job
  admit_job-NotQueued prime a now q =
      let c = a.core in
      let stored = set_id p (job_at p c a.slot).id a.slot c.job_index c.world in
      let a' = record a { core = record c { job_index = stored.1; world = stored.2 } } in
      elim (Bool-cases a.ok) [
        | inr full ↦ rw full q
        | inl ok ↦ rw ok (elim (Bool-cases stored.0) [
          | inl kept ↦ rw kept (start_job-NotQueued prime a' now q)
          | inr no_entry ↦ rw no_entry (undo_job-NotQueued a' q)
        ])
      ]

  place_job-NotQueued :
      (c : Core p) (r : JobRecord p)
      → NotQueued p s c
      → r.queued_while_running ≡ false
      → NotQueued p s (place_job p c r).core
  unfolding place_job new_job
  place_job-NotQueued c r q off =
      let slot = last_or c.free_slots.items 0 in
      elim (Bool-cases (length c.free_slots.items == 0)) [
        | inr free ↦ rw free (set-NotQueued p s c slot _ q (inl off))
        | inl none_free ↦ elim (push_back_lem p p.size_of_job r c.jobs c.world) [
          | inr (full, kept) ↦ rw none_free (rw kept q)
          | inl (ok, added) ↦ rw none_free (
              rw added (
                ground (
                  arith,
                  get_or-append c.jobs.items (r ∷ []) s (new_job p),
                  get_or-out (r ∷ []) (s - slots p c) (new_job p),
                )))
        ]
      ]

  add_job-NotQueued :
      (c : Core p) (schedule : ScheduleSpec p) (options : JobOptions) (callback : CallbackRef)
      (now : DateTime)
      → NotQueued p s c
      → NotQueued p s (add_job p c schedule options callback now).1
  unfolding add_job
  add_job-NotQueued c schedule options callback now q =
      let named = assign_name p options.name c.world in
      let c' = record c { next_id = (c.next_id + 1) % 2 ^ 32; world = named.2 } in
      let r = record (requested_job p schedule options callback c.next_id) { name = named.1 } in
      let prime = not options.start_paused && clock_valid p c now in
      let first = if prime then (compute_next_for_job p r now).1 else r in
      let off : first.queued_while_running ≡ false = elim (Bool-cases prime) [
        | inl at_once ↦
            rw at_once (compute_next_for_job-queued p s r now ∙ unfold requested_job in refl)
        | inr later ↦ rw later (unfold requested_job in refl)
      ] in
      elim (Bool-cases (callback_valid callback)) [
        | inr no_callback ↦ rw no_callback q
        | inl given ↦ rw given (elim (Bool-cases (validate p schedule)) [
          | inr not_valid ↦ rw not_valid q
          | inl valid ↦ rw valid (elim (Bool-cases named.0) [
            | inr no_name ↦ rw no_name q
            | inl has_name ↦ rw has_name (
                admit_job-NotQueued prime (place_job p c' first) now
                  (place_job-NotQueued c' first q off))
          ])
        ])
      ]

  apply_call-NotQueued :
      (c : Core p) (call : CoreCall p) → NotQueued p s c → NotQueued p s (apply_call p c call)
  unfolding apply_call cancel_all refresh_all_schedules
  apply_call-NotQueued c (call_add schedule options callback now) q =
      add_job-NotQueued c schedule options callback now q
  apply_call-NotQueued c (call_cancel id) q = cancel_job-NotQueued c id q
  apply_call-NotQueued c (call_pause id) q = pause_job-NotQueued c id q
  apply_call-NotQueued c (call_resume id now) q = resume_job-NotQueued c id now q
  apply_call-NotQueued c call_cancel_all q = cancel_from-NotQueued (slots p c) 0 c q
  apply_call-NotQueued c (call_refresh now) q = refresh_from-NotQueued (slots p c) 0 now c q

  -- Whatever a callback calls, no run of the slot is deferred where none was.
  pub apply_calls-NotQueued :
      (calls : List (CoreCall p)) (c : Core p)
      → NotQueued p s c
      → NotQueued p s (apply_calls p calls c)
  unfolding apply_calls
  apply_calls-NotQueued [] c q = q
  apply_calls-NotQueued (call ∷ calls) c q =
      apply_calls-NotQueued calls (apply_call p c call) (apply_call-NotQueued c call q)
