-- ===== src/Core/Dispatch/Depth.antt =====
-- How deep `dispatchOne` and `handleCompletion` of core/scheduler_core.cpp call one another: no call of the
-- interface defers a run, so a deferred run defers no other.
pub mod Calls
pub mod Nested
use esp_scheduler.Prelude.{
  ◌≡◌, ◌∙◌, ◌⊎◌, ◌&&◌, ◌||◌, ◌==◌, if◌then◌else◌, ℕ, refl, inl, inr, Bool, true, false, not, List,
  arith, leb, Bool-cases, get_or, get_or-set, get_or-out,
}
use esp_scheduler.Platform.{Platform}
use esp_scheduler.Schedule.Spec.{ScheduleSpec}
use esp_scheduler.Schedule.Calculator.{validate}
use esp_scheduler.Core.Array.{SchedulerArray, push_back, push_back_lem, pop_back, last_or}
use esp_scheduler.Core.DueHeap
use esp_scheduler.Core.IdIndex.{set_id}
use esp_scheduler.Core.Job.{
  JobRecord, JobOptions, CallbackRef, JobInvocation, new_job, success, failure, SchedulerResult,
  Result-cases, runs_once, callback_valid, assign_name,
}
use esp_scheduler.Core.Scheduler.{
  SchedulerCore, Core, slots, job_at, set_job, due_entry, is_parallel, clock_valid,
  compute_next_for_job, push_due, push_due_or_clear, reschedule, queue_scheduling, clear_scheduling,
  retire_job, finalize_canceled_if_idle, find_job_slot,
}
use esp_scheduler.Core.Calls.{
  cancel_slot, cancel_job, pause_job, resume_job, cancel_from, cancel_all, refresh_slot,
  refresh_from, refresh_all_schedules,
}
use esp_scheduler.Core.AddJob.{
  Placed, requested_job, place_job, undo_job, start_job, index_job, admit_job, add_job,
}
use esp_scheduler.Core.Dispatch.{
  CoreCall, call_add, call_cancel, call_pause, call_resume, call_cancel_all, call_refresh,
  Executors, is_inline, apply_call, apply_calls, invocation_of, submit_inline, complete_with,
  begin_inline, dispatch_one,
}

module _ (p : Platform) (s : ℕ) where
  open p use {DateTime}

  abbrev pub Settled : List (JobRecord p) → Type 0
  Settled jobs = (get_or jobs s (new_job p)).queued_while_running ≡ false

  -- No run of slot `s` is deferred.
  abbrev pub NotQueued : Core p → Type 0
  NotQueued c = Settled c.jobs.items

  -- A write that defers no run.
  pub set-NotQueued :
      (c : Core p) (t : ℕ) (r : JobRecord p)
      → NotQueued c
      → (r.queued_while_running ≡ false)
        ⊎ (r.queued_while_running ≡ (job_at p c t).queued_while_running)
      → NotQueued (set_job p c t r)
  set-NotQueued c t r q w = elim (Bool-cases (t == s)) [
    | inr other ↦ ground (arith, get_or-set c.jobs.items t s r (new_job p))
    | inl same ↦
        let e : t ≡ s = ground arith in
        let kept : r.queued_while_running ≡ false = elim w [
          | inl off ↦ off
          | inr as_before ↦ as_before ∙ rw e q
        ] in
        ground (arith, get_or-set c.jobs.items t s r (new_job p))
  ]

  -- A write to the slot itself.
  pub set_off :
      (c : Core p) (r : JobRecord p) → r.queued_while_running ≡ false → NotQueued (set_job p c s r)
  unfolding new_job
  set_off c r off =
      ground
        (arith, get_or-set c.jobs.items s s r (new_job p), get_or-out c.jobs.items s (new_job p))

  pub if-NotQueued :
      (b : Bool) (x y : Core p)
      → (b ≡ true → NotQueued x)
      → (b ≡ false → NotQueued y)
      → NotQueued (if b then x else y)
  if-NotQueued true x y w v = w refl
  if-NotQueued false x y w v = v refl

  pub push_due_or_clear-NotQueued :
      (c : Core p) (t : ℕ) → NotQueued c → NotQueued (push_due_or_clear p c t)
  push_due_or_clear-NotQueued c t q =
      let r = job_at p c t in
      let pushed = DueHeap.push p (due_entry p t r) c.due_heap c.world in
      let c' = record c { due_heap = pushed.1; world = pushed.2 } in
      let cleared = record r { has_next = false } in
      elim (Bool-cases (not r.occupied || (r.canceled || not r.has_next))) [
        | inl quiet ↦
            let kept : push_due_or_clear p c t ≡ c =
              unfold push_due_or_clear push_due in ground arith in
            rw kept q
        | inr is_live ↦ elim (Bool-cases pushed.0) [
          | inl ok ↦
              let kept : push_due_or_clear p c t ≡ c' =
                unfold push_due_or_clear push_due in ground arith in
              rw kept q
          | inr full ↦
              let kept : push_due_or_clear p c t ≡ set_job p c' t cleared =
                unfold push_due_or_clear push_due in ground arith in
              rw kept (set-NotQueued c t cleared q (inr refl))
        ]
      ]

  pub compute_next_for_job-queued :
      (r : JobRecord p) (t : DateTime)
      → (compute_next_for_job p r t).1.queued_while_running ≡ r.queued_while_running
  unfolding compute_next_for_job
  compute_next_for_job-queued r t = ground arith

  pub reschedule-NotQueued :
      (c : Core p) (t : ℕ) (r : JobRecord p) (from_utc : DateTime)
      → NotQueued c
      → r.queued_while_running ≡ (job_at p c t).queued_while_running
      → NotQueued (reschedule p c t r from_utc)
  unfolding reschedule
  reschedule-NotQueued c t r from_utc q same =
      let next = compute_next_for_job p r from_utc in
      let written =
        set-NotQueued c t next.1 q (inr (compute_next_for_job-queued r from_utc ∙ same)) in
      elim (Bool-cases next.0) [
        | inl found ↦ rw found (push_due_or_clear-NotQueued (set_job p c t next.1) t written)
        | inr not_found ↦ rw not_found written
      ]

  pub queue_scheduling-NotQueued :
      (c : Core p) (t : ℕ) (now : DateTime) → NotQueued c → NotQueued (queue_scheduling p c t now).1
  unfolding queue_scheduling
  queue_scheduling-NotQueued c t now q =
      let r = job_at p c t in
      elim (Bool-cases (leb (slots p c) t)) [
        | inl outside ↦ rw outside q
        | inr inside ↦ rw inside (elim (Bool-cases (not r.occupied || (r.canceled || r.paused))) [
          | inl off ↦ rw off (set-NotQueued c t _ q (inr refl))
          | inr on ↦ rw on (elim (Bool-cases r.pending_schedule) [
            | inl waits ↦ rw waits (set-NotQueued c t _ q (inr refl))
            | inr idle ↦ rw idle (set-NotQueued c t _ q (inr refl))
          ])
        ])
      ]

  pub clear_scheduling-NotQueued :
      (c : Core p) (t : ℕ) → NotQueued c → NotQueued (clear_scheduling p c t)
  unfolding clear_scheduling
  clear_scheduling-NotQueued c t q = elim (Bool-cases (leb (slots p c) t)) [
    | inl outside ↦ rw outside q
    | inr inside ↦ rw inside (set-NotQueued c t _ q (inr refl))
  ]

  pub retire_job-NotQueued : (c : Core p) (t : ℕ) → NotQueued c → NotQueued (retire_job p c t)
  unfolding retire_job
  retire_job-NotQueued c t q = elim (Bool-cases (leb (slots p c) t)) [
    | inl outside ↦ rw outside q
    | inr inside ↦ rw inside (set-NotQueued c t _ q (inl refl))
  ]

  pub finalize-NotQueued :
      (c : Core p) (t : ℕ) → NotQueued c → NotQueued (finalize_canceled_if_idle p c t)
  finalize-NotQueued c t q =
      let r = job_at p c t in
      unfold finalize_canceled_if_idle in
      if-NotQueued (leb (slots p c) t) c
        (if r.occupied && (r.canceled && r.running_count == 0) then retire_job p c t else c)
        (λ h. q)
        λ h.
          if-NotQueued (r.occupied && (r.canceled && r.running_count == 0)) (retire_job p c t) c
            (λ h. retire_job-NotQueued c t q) (λ h. q)

  pub cancel_slot-NotQueued : (c : Core p) (t : ℕ) → NotQueued c → NotQueued (cancel_slot p c t)
  unfolding cancel_slot
  cancel_slot-NotQueued c t q =
      let r = record (job_at p c t) {
        canceled = true;
        paused = false;
        queued_while_running = false;
      } in
      finalize-NotQueued (clear_scheduling p (set_job p c t r) t) t
        (clear_scheduling-NotQueued (set_job p c t r) t (set-NotQueued c t r q (inl refl)))
