-- ===== src/Core/Wakeup/Calls.antt =====
-- The calls of core/scheduler_core.cpp keep every wake-up.
use esp_scheduler.Prelude.{
  ◌+◌, ◌≤◌, ◌≡◌, ◌&&◌, ◌||◌, ◌==◌, ℕ, zero, suc, refl, inl, inr, false, not, arith, ltb, leb,
  Bool-cases,
}
use esp_scheduler.Platform.{Platform}
use esp_scheduler.Core.Job.{JobRecord, new_job, Result-cases, runs_once}
use esp_scheduler.Core.Scheduler.{
  Core, slots, job_at, set_job, compute_next_for_job, reschedule, queue_scheduling,
  clear_scheduling, retire_job, finalize_canceled_if_idle, find_job_slot, is_parallel,
}
use esp_scheduler.Core.Calls.{
  cancel_slot, cancel_job, pause_job, resume_job, cancel_from, cancel_all, refresh_slot,
  refresh_from, refresh_all_schedules,
}
use esp_scheduler.Core.Wakeup.{
  live, Wakes, WakesBut, forget, close_quiet, job_at-out, set-WakesBut, set-quiet, set-same,
  push_due_or_clear-Wakes,
}

module _ (p : Platform) where
  open p use {DateTime}

  -- No time is found only with `hasNext` cleared.
  compute_next_for_job-none :
      (r : JobRecord p) (t : DateTime)
      → (compute_next_for_job p r t).0 ≡ false
      → live p (compute_next_for_job p r t).1 ≡ false
  unfolding compute_next_for_job
  compute_next_for_job-none r t e = ground arith

  pub reschedule-Wakes :
      (c : Core p) (s : ℕ) (r : JobRecord p) (t : DateTime)
      → WakesBut p s c
      → Wakes p (reschedule p c s r t)
  unfolding reschedule
  reschedule-Wakes c s r t w =
      let next = compute_next_for_job p r t in
      elim (Bool-cases next.0) [
        | inl found ↦
            rw found
              (push_due_or_clear-Wakes p (set_job p c s next.1) s (set-WakesBut p c s next.1 w))
        | inr not_found ↦
            rw not_found (set-quiet p c s next.1 w (compute_next_for_job-none r t not_found))
      ]

  -- A slot that does not exist asks for nothing.
  pub outside-Wakes : (c : Core p) (s : ℕ) → slots p c ≤ s → WakesBut p s c → Wakes p c
  unfolding new_job
  outside-Wakes c s h w = close_quiet p c s w (ground (arith, job_at-out p c s h))

  pub queue_scheduling-Wakes :
      (c : Core p) (s : ℕ) (t : DateTime) → WakesBut p s c → Wakes p (queue_scheduling p c s t).1
  unfolding queue_scheduling
  queue_scheduling-Wakes c s t w =
      let r = job_at p c s in
      elim (Bool-cases (leb (slots p c) s)) [
        | inl outside ↦ rw outside (outside-Wakes c s (ground arith) w)
        | inr inside ↦ rw inside (elim (Bool-cases (not r.occupied || (r.canceled || r.paused))) [
          | inl off ↦ rw off (set-quiet p c s _ w (ground arith))
          | inr on ↦ rw on (elim (Bool-cases r.pending_schedule) [
            | inl waits ↦ rw waits (set-quiet p c s _ w (ground arith))
            | inr idle ↦ rw idle (set-quiet p c s _ w (ground arith))
          ])
        ])
      ]

  pub clear_scheduling-Wakes :
      (c : Core p) (s : ℕ) → WakesBut p s c → Wakes p (clear_scheduling p c s)
  unfolding clear_scheduling
  clear_scheduling-Wakes c s w = elim (Bool-cases (leb (slots p c) s)) [
    | inl outside ↦ rw outside (outside-Wakes c s (ground arith) w)
    | inr inside ↦ rw inside (set-quiet p c s _ w (ground arith))
  ]

  pub retire_job-Wakes : (c : Core p) (s : ℕ) → WakesBut p s c → Wakes p (retire_job p c s)
  unfolding retire_job
  retire_job-Wakes c s w = elim (Bool-cases (leb (slots p c) s)) [
    | inl outside ↦ rw outside (outside-Wakes c s (ground arith) w)
    | inr inside ↦ rw inside (set-quiet p c s _ w (ground arith))
  ]

  pub finalize_canceled_if_idle-Wakes :
      (c : Core p) (s : ℕ) → Wakes p c → Wakes p (finalize_canceled_if_idle p c s)
  unfolding finalize_canceled_if_idle
  finalize_canceled_if_idle-Wakes c s w = elim (Bool-cases (leb (slots p c) s)) [
    | inl outside ↦ rw outside w
    | inr inside ↦
        let r = job_at p c s in
        rw inside (elim (Bool-cases (r.occupied && (r.canceled && r.running_count == 0))) [
          | inl over ↦ rw over (set-quiet p c s _ (forget p c s w) (ground arith))
          | inr not_over ↦ rw not_over w
        ])
  ]

  pub cancel_slot-Wakes : (c : Core p) (s : ℕ) → Wakes p c → Wakes p (cancel_slot p c s)
  unfolding cancel_slot
  cancel_slot-Wakes c s w =
      finalize_canceled_if_idle-Wakes _ s
        (clear_scheduling-Wakes _ s (set-WakesBut p c s _ (forget p c s w)))

  pub cancel_job-Wakes : (c : Core p) (id : ℕ) → Wakes p c → Wakes p (cancel_job p c id).1
  unfolding cancel_job
  cancel_job-Wakes c id w = elim (Result-cases (find_job_slot p c id)) [
    | inl (e, missing) ↦ rw (missing, cancel_job) w
    | inr (s, found) ↦ rw (found, cancel_job) (cancel_slot-Wakes c s w)
  ]

  pub pause_job-Wakes : (c : Core p) (id : ℕ) → Wakes p c → Wakes p (pause_job p c id).1
  unfolding pause_job
  pause_job-Wakes c id w = elim (Result-cases (find_job_slot p c id)) [
    | inl (e, missing) ↦ rw (missing, pause_job) w
    | inr (s, found) ↦
        rw (found, pause_job) (clear_scheduling-Wakes _ s (set-WakesBut p c s _ (forget p c s w)))
  ]

  pub resume_job-Wakes :
      (c : Core p) (id : ℕ) (t : DateTime) → Wakes p c → Wakes p (resume_job p c id t).1
  unfolding resume_job
  resume_job-Wakes c id t w = elim (Result-cases (find_job_slot p c id)) [
    | inl (e, missing) ↦ rw (missing, resume_job) w
    | inr (s, found) ↦
        let r = job_at p c s in
        let c' = set_job p c s (record r { paused = false; queued_while_running = false }) in
        let queued = queue_scheduling-Wakes c' s t (set-WakesBut p c s _ (forget p c s w)) in
        rw (found, resume_job)
          (elim (Bool-cases (r.running_count == 0)) [
            | inl idle ↦ rw idle (elim (Bool-cases (queue_scheduling p c' s t).0) [
              | inl ok ↦ rw ok queued
              | inr full ↦ rw full queued
            ])
            | inr busy ↦ rw busy (set-same p c s _ w (λ h. (h, refl)))
          ])
  ]

  cancel_from-Wakes : (n i : ℕ) (c : Core p) → Wakes p c → Wakes p (cancel_from p n i c)
  unfolding cancel_from
  cancel_from-Wakes zero i c w = w
  cancel_from-Wakes (suc n) i c w =
      let r = job_at p c i in
      elim (Bool-cases (not r.occupied || r.canceled)) [
        | inl skip ↦ rw (skip, cancel_from) (cancel_from-Wakes n (i + 1) c w)
        | inr hit ↦
            rw (hit, cancel_from)
              (cancel_from-Wakes n (i + 1) (cancel_slot p c i) (cancel_slot-Wakes c i w))
      ]

  pub cancel_all-Wakes : (c : Core p) → Wakes p c → Wakes p (cancel_all p c).1
  unfolding cancel_all
  cancel_all-Wakes c w = cancel_from-Wakes (slots p c) 0 c w

  refresh_slot-Wakes :
      (c : Core p) (i : ℕ) (t : DateTime) → Wakes p c → Wakes p (refresh_slot p c i t)
  unfolding refresh_slot
  refresh_slot-Wakes c i t w =
      let r = job_at p c i in
      elim (Bool-cases (not r.occupied || (r.canceled || r.paused))) [
        | inl off ↦ rw off w
        | inr on ↦ rw on (elim (Bool-cases (runs_once r)) [
          | inl once ↦ rw once w
          | inr again ↦
              rw again (elim (Bool-cases (ltb 0 r.running_count && not (is_parallel r.overlap))) [
                | inl busy ↦ rw busy (set-quiet p c i _ (forget p c i w) (ground arith))
                | inr free ↦ rw free (
                    reschedule-Wakes c i
                      (record r {
                        pending_schedule = false;
                        refresh_pending = false;
                        has_next = false;
                        next_run_utc = p.zero_time;
                      })
                      t (forget p c i w))
              ])
        ])
      ]

  refresh_from-Wakes :
      (n i : ℕ) (t : DateTime) (c : Core p) → Wakes p c → Wakes p (refresh_from p n i t c)
  unfolding refresh_from
  refresh_from-Wakes zero i t c w = w
  refresh_from-Wakes (suc n) i t c w =
      refresh_from-Wakes n (i + 1) t (refresh_slot p c i t) (refresh_slot-Wakes c i t w)

  pub refresh_all_schedules-Wakes :
      (c : Core p) (t : DateTime) → Wakes p c → Wakes p (refresh_all_schedules p c t).1
  unfolding refresh_all_schedules
  refresh_all_schedules-Wakes c t w = refresh_from-Wakes (slots p c) 0 t c w
