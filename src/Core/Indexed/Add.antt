-- ===== src/Core/Indexed/Add.antt =====
-- `addJob` of core/scheduler_core.cpp and its roll backs keep the index well formed.
use esp_scheduler.Prelude.{
  ◌+◌, ◌%◌, ◌^◌, ◌≡◌, ◌&&◌, if◌then◌else◌, inl, inr, Bool, not, arith, Bool-cases,
}
use esp_scheduler.Platform.{Platform}
use esp_scheduler.Schedule.Spec.{ScheduleSpec}
use esp_scheduler.Schedule.Calculator.{validate}
use esp_scheduler.Core.IdIndex.{set_id}
use esp_scheduler.Core.IdIndex.Probe.{IsValid}
use esp_scheduler.Core.IdIndex.Laws.{get-remove, set_id-Set, Set-IsValid}
use esp_scheduler.Core.Job.{JobRecord, JobOptions, CallbackRef, callback_valid, assign_name}
use esp_scheduler.Core.Scheduler.{Core, job_at, compute_next_for_job, clock_valid, queue_scheduling}
use esp_scheduler.Core.AddJob.{
  Placed, requested_job, place_job, undo_job, start_job, index_job, admit_job, add_job,
}
use esp_scheduler.Core.Indexed.{Indexed, push_due_or_clear-index, queue_scheduling-index}

module _ (p : Platform) where
  open p use {DateTime}

  undo_job-Indexed : (a : Placed p) → Indexed p a.core → Indexed p (undo_job p a)
  unfolding undo_job
  undo_job-Indexed a v =
      let removed = (get-remove a.core.job_index (job_at p a.core a.slot).id v).0 in
      elim (Bool-cases a.reused) [ inl again ↦ rw again removed | inr fresh ↦ rw fresh removed ]

  start_job-Indexed :
      (prime : Bool) (a : Placed p) (now : DateTime)
      → Indexed p a.core
      → Indexed p (start_job p prime a now).1
  unfolding start_job
  start_job-Indexed prime a now v =
      let c = a.core in
      let r = job_at p c a.slot in
      let queued : Indexed p (queue_scheduling p c a.slot now).1 =
        rw (queue_scheduling-index p c a.slot now) v in
      let again = record a { core = (queue_scheduling p c a.slot now).1 } in
      elim (Bool-cases r.paused) [
        | inl paused ↦ rw paused v
        | inr active ↦ rw active (elim (Bool-cases prime) [
          | inl first ↦ rw first (elim (Bool-cases r.has_next) [
            | inl next ↦ rw next (rw (push_due_or_clear-index p c a.slot) v)
            | inr no_next ↦ rw no_next v
          ])
          | inr later ↦ rw later (elim (Bool-cases (queue_scheduling p c a.slot now).0) [
            | inl ok ↦ rw ok queued
            | inr full ↦ rw full (undo_job-Indexed again queued)
          ])
        ])
      ]

  admit_job-Indexed :
      (prime : Bool) (a : Placed p) (now : DateTime)
      → Indexed p a.core
      → Indexed p (admit_job p prime a now).1
  unfolding admit_job index_job
  admit_job-Indexed prime a now v =
      let c = a.core in
      let id = (job_at p c a.slot).id in
      let stored = set_id p id a.slot c.job_index c.world in
      let a' = record a { core = record c { job_index = stored.1; world = stored.2 } } in
      let v' : IsValid stored.1 =
        Set-IsValid p id a.slot c.job_index (set_id-Set p id a.slot c.job_index c.world v) in
      elim (Bool-cases a.ok) [
        | inr full ↦ rw full v
        | inl ok ↦ rw ok (elim (Bool-cases stored.0) [
          | inl kept ↦ rw kept (start_job-Indexed prime a' now v')
          | inr no_entry ↦ rw no_entry (undo_job-Indexed a' v')
        ])
      ]

  place_job-index : (c : Core p) (r : JobRecord p) → (place_job p c r).core.job_index ≡ c.job_index
  unfolding place_job
  place_job-index c r = ground arith

  pub add_job-Indexed :
      (c : Core p) (schedule : ScheduleSpec p) (options : JobOptions) (callback : CallbackRef)
      (now : DateTime)
      → Indexed p c
      → Indexed p (add_job p c schedule options callback now).1
  unfolding add_job
  add_job-Indexed c schedule options callback now v =
      let named = assign_name p options.name c.world in
      let c' = record c { next_id = (c.next_id + 1) % 2 ^ 32; world = named.2 } in
      let r = record (requested_job p schedule options callback c.next_id) { name = named.1 } in
      let prime = not options.start_paused && clock_valid p c now in
      let first = if prime then (compute_next_for_job p r now).1 else r in
      elim (Bool-cases (callback_valid callback)) [
        | inr no_callback ↦ rw no_callback v
        | inl given ↦ rw given (elim (Bool-cases (validate p schedule)) [
          | inr not_valid ↦ rw not_valid v
          | inl valid ↦ rw valid (elim (Bool-cases named.0) [
            | inr no_name ↦ rw no_name v
            | inl has_name ↦ rw has_name (
                admit_job-Indexed prime (place_job p c' first) now
                  (rw (place_job-index c' first) v))
          ])
        ])
      ]
