-- ===== src/Core/Indexed.antt =====
-- The index of job ids stays well formed in every operation of core/scheduler_core.cpp.
pub mod Add
pub mod Run
pub mod Reach
use esp_scheduler.Prelude.{
  ◌+◌, ◌≡◌, ◌&&◌, ◌||◌, ◌==◌, if◌then◌else◌, ℕ, zero, suc, refl, inl, inr, Bool, true, false, not,
  arith, leb, Bool-cases,
}
use esp_scheduler.Platform.{Platform}
use esp_scheduler.Schedule.Spec.{ScheduleSpec}
use esp_scheduler.Schedule.Calculator.{validate}
use esp_scheduler.Core.IdIndex.{set_id}
use esp_scheduler.Core.IdIndex.Probe.{IsValid}
use esp_scheduler.Core.IdIndex.Laws.{get-remove, set_id-Set, Set-IsValid}
use esp_scheduler.Core.Job.{
  JobRecord, JobOptions, CallbackRef, Result-cases, success, failure, runs_once, callback_valid,
  assign_name,
}
use esp_scheduler.Core.Scheduler.{
  SchedulerCore, Core, slots, job_at, set_job, find_job_slot, compute_next_for_job, push_due,
  push_due_or_clear, clock_valid, reschedule, queue_scheduling, clear_scheduling, retire_job,
  finalize_canceled_if_idle, is_parallel,
}
use esp_scheduler.Core.Calls.{
  cancel_slot, cancel_job, pause_job, resume_job, cancel_from, cancel_all, refresh_slot,
  refresh_from, refresh_all_schedules,
}
use esp_scheduler.Core.AddJob.{
  Placed, requested_job, place_job, undo_job, start_job, index_job, admit_job, add_job,
}

module _ (p : Platform) where
  open p use {DateTime}

  abbrev pub Indexed : Core p → Type 0
  Indexed c = IsValid c.job_index

  -- A test, by its two branches.
  pub if-Indexed :
      (b : Bool) (x y : Core p)
      → (b ≡ true → Indexed x)
      → (b ≡ false → Indexed y)
      → Indexed (if b then x else y)
  if-Indexed true x y w v = w refl
  if-Indexed false x y w v = v refl

  pub push_due_or_clear-index :
      (c : Core p) (s : ℕ) → (push_due_or_clear p c s).job_index ≡ c.job_index
  unfolding push_due_or_clear push_due
  push_due_or_clear-index c s = ground arith

  pub reschedule-index :
      (c : Core p) (s : ℕ) (r : JobRecord p) (t : DateTime)
      → (reschedule p c s r t).job_index ≡ c.job_index
  unfolding reschedule
  reschedule-index c s r t =
      let c' = set_job p c s (compute_next_for_job p r t).1 in
      ground (arith, push_due_or_clear-index c' s)

  pub queue_scheduling-index :
      (c : Core p) (s : ℕ) (t : DateTime) → (queue_scheduling p c s t).1.job_index ≡ c.job_index
  unfolding queue_scheduling
  queue_scheduling-index c s t = ground arith

  clear_scheduling-index : (c : Core p) (s : ℕ) → (clear_scheduling p c s).job_index ≡ c.job_index
  unfolding clear_scheduling
  clear_scheduling-index c s = ground arith

  pub retire_job-Indexed : (c : Core p) (s : ℕ) → Indexed c → Indexed (retire_job p c s)
  unfolding retire_job
  retire_job-Indexed c s v = elim (Bool-cases (leb (slots p c) s)) [
    | inl outside ↦ rw outside v
    | inr inside ↦ rw inside (elim (Bool-cases ((job_at p c s).id == 0)) [
      | inl zero_id ↦ rw zero_id v
      | inr id ↦ rw id ((get-remove c.job_index (job_at p c s).id v).0)
    ])
  ]

  pub finalize-Indexed :
      (c : Core p) (s : ℕ) → Indexed c → Indexed (finalize_canceled_if_idle p c s)
  finalize-Indexed c s v =
      let r = job_at p c s in
      unfold finalize_canceled_if_idle in
      if-Indexed (leb (slots p c) s) c
        (if r.occupied && (r.canceled && r.running_count == 0) then retire_job p c s else c)
        (λ h. v)
        λ h.
          if-Indexed (r.occupied && (r.canceled && r.running_count == 0)) (retire_job p c s) c
            (λ h. retire_job-Indexed c s v) (λ h. v)

  cancel_slot-Indexed : (c : Core p) (s : ℕ) → Indexed c → Indexed (cancel_slot p c s)
  unfolding cancel_slot
  cancel_slot-Indexed c s v =
      let r = record (job_at p c s) {
        canceled = true;
        paused = false;
        queued_while_running = false;
      } in
      let c' = set_job p c s r in
      finalize-Indexed (clear_scheduling p c' s) s (rw (clear_scheduling-index c' s) v)

  pub cancel_job-Indexed : (c : Core p) (id : ℕ) → Indexed c → Indexed (cancel_job p c id).1
  unfolding cancel_job
  cancel_job-Indexed c id v = elim (Result-cases (find_job_slot p c id)) [
    | inl (e, missing) ↦ rw (missing, cancel_job) v
    | inr (s, found) ↦ rw (found, cancel_job) (cancel_slot-Indexed c s v)
  ]

  pub pause_job-Indexed : (c : Core p) (id : ℕ) → Indexed c → Indexed (pause_job p c id).1
  unfolding pause_job
  pause_job-Indexed c id v = elim (Result-cases (find_job_slot p c id)) [
    | inl (e, missing) ↦ rw (missing, pause_job) v
    | inr (s, found) ↦
        let r = record (job_at p c s) { paused = true; queued_while_running = false } in
        rw (found, pause_job) (rw (clear_scheduling-index (set_job p c s r) s) v)
  ]

  pub resume_job-Indexed :
      (c : Core p) (id : ℕ) (t : DateTime) → Indexed c → Indexed (resume_job p c id t).1
  unfolding resume_job
  resume_job-Indexed c id t v = elim (Result-cases (find_job_slot p c id)) [
    | inl (e, missing) ↦ rw (missing, resume_job) v
    | inr (s, found) ↦
        let r = job_at p c s in
        let c' = set_job p c s (record r { paused = false; queued_while_running = false }) in
        let queued : Indexed (queue_scheduling p c' s t).1 = rw (queue_scheduling-index c' s t) v in
        rw (found, resume_job)
          (elim (Bool-cases (r.running_count == 0)) [
            | inl idle ↦ rw idle (elim (Bool-cases (queue_scheduling p c' s t).0) [
              | inl ok ↦ rw ok queued
              | inr full ↦ rw full queued
            ])
            | inr busy ↦ rw busy v
          ])
  ]

  cancel_from-Indexed : (n i : ℕ) (c : Core p) → Indexed c → Indexed (cancel_from p n i c)
  unfolding cancel_from
  cancel_from-Indexed zero i c v = v
  cancel_from-Indexed (suc n) i c v =
      let r = job_at p c i in
      elim (Bool-cases (not r.occupied || r.canceled)) [
        | inl skip ↦ rw (skip, cancel_from) (cancel_from-Indexed n (i + 1) c v)
        | inr hit ↦
            rw (hit, cancel_from)
              (cancel_from-Indexed n (i + 1) (cancel_slot p c i) (cancel_slot-Indexed c i v))
      ]

  pub cancel_all-Indexed : (c : Core p) → Indexed c → Indexed (cancel_all p c).1
  unfolding cancel_all
  cancel_all-Indexed c v = cancel_from-Indexed (slots p c) 0 c v

  refresh_slot-index :
      (c : Core p) (i : ℕ) (t : DateTime) → (refresh_slot p c i t).job_index ≡ c.job_index
  unfolding refresh_slot
  refresh_slot-index c i t =
      let r = record (job_at p c i) {
        pending_schedule = false;
        refresh_pending = false;
        has_next = false;
        next_run_utc = p.zero_time;
      } in
      ground (arith, reschedule-index c i r t)

  refresh_from-Indexed :
      (n i : ℕ) (t : DateTime) (c : Core p) → Indexed c → Indexed (refresh_from p n i t c)
  unfolding refresh_from
  refresh_from-Indexed zero i t c v = v
  refresh_from-Indexed (suc n) i t c v =
      refresh_from-Indexed n (i + 1) t (refresh_slot p c i t) (rw (refresh_slot-index c i t) v)

  pub refresh_all_schedules-Indexed :
      (c : Core p) (t : DateTime) → Indexed c → Indexed (refresh_all_schedules p c t).1
  unfolding refresh_all_schedules
  refresh_all_schedules-Indexed c t v = refresh_from-Indexed (slots p c) 0 t c v
