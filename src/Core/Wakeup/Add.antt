-- ===== src/Core/Wakeup/Add.antt =====
-- `addJob` of core/scheduler_core.cpp keeps every wake-up, where it fails and rolls back too.
use esp_scheduler.Prelude.{
  ◌+◌, ◌-◌, ◌%◌, ◌^◌, ◌<◌, ◌≡◌, ◌≢◌, ◌⊎◌, ◌&&◌, ◌||◌, ◌∷◌, ◌++◌, ◌==◌, if◌then◌else◌, [], ℕ, refl,
  inl, inr, Bool, true, false, not, List, arith, ltb, leb, Bool-cases, length, get_or,
  length-append, length-set, length-init, get_or-init, get_or-append, get_or-out,
}
use esp_scheduler.Platform.{Platform}
use esp_scheduler.Schedule.Spec.{ScheduleSpec}
use esp_scheduler.Schedule.Calculator.{validate}
use esp_scheduler.Core.Job.{
  JobRecord, JobOptions, CallbackRef, new_job, assign_name, callback_valid,
}
use esp_scheduler.Core.Array.{last_or, push_back_lem, pop_back}
use esp_scheduler.Core.IdIndex.{set_id}
use esp_scheduler.Core.Scheduler.{
  Core, slots, job_at, set_job, clock_valid, compute_next_for_job, queue_scheduling,
}
use esp_scheduler.Core.AddJob.{
  Placed, requested_job, place_job, undo_job, start_job, index_job, admit_job, add_job,
}
use esp_scheduler.Core.Wakeup.{
  live, DueIn, Wakes, WakesBut, forget, close_quiet, job_at-out, set-WakesBut, set-quiet,
  push_due_or_clear-Wakes, job_at-written,
}
use esp_scheduler.Core.Wakeup.Calls.{queue_scheduling-Wakes}

module _ (p : Platform) where
  open p use {DateTime}

  -- A paused job has no next run.
  abbrev Rests : JobRecord p → Type 0
  Rests r = r.paused ≡ true → live p r ≡ false

  pop_back-Wakes :
      (c : Core p) (s : ℕ)
      → s + 1 ≡ slots p c
      → WakesBut p s c
      → Wakes p (record c { jobs = pop_back c.jobs })
  unfolding pop_back new_job
  pop_back-Wakes c s last w = record {
    ordered = w.ordered;
    due = λ i h.
        let popped = record c { jobs = pop_back c.jobs } in
        let size = length-init c.jobs.items in
        let short = job_at-out p popped i in
        let inside : i < s = ground (arith, short, size) in
        let kept : job_at p popped i ≡ job_at p c i =
          get_or-init c.jobs.items i (new_job p) (omega arith) in
        rw kept (w.due i (omega arith) (rw kept at h));
  }

  -- The slot that is undone is the last one, unless it was reused.
  abbrev AtEnd : Placed p → Type 0
  AtEnd s = s.reused ≡ false → s.slot + 1 ≡ slots p s.core

  undo_job-Wakes : (s : Placed p) → AtEnd s → WakesBut p s.slot s.core → Wakes p (undo_job p s)
  unfolding undo_job new_job
  undo_job-Wakes s at_end w = elim (Bool-cases s.reused) [
    | inl again ↦ rw again (set-quiet p s.core s.slot _ w (ground arith))
    | inr fresh ↦ rw fresh (pop_back-Wakes s.core s.slot (at_end fresh) w)
  ]

  slots-queue :
      (c : Core p) (s : ℕ) (t : DateTime) → slots p (queue_scheduling p c s t).1 ≡ slots p c
  unfolding queue_scheduling
  slots-queue c s t =
      let r = job_at p c s in
      elim (Bool-cases (leb (slots p c) s)) [
        | inl outside ↦ rw outside refl
        | inr inside ↦ rw inside (elim (Bool-cases (not r.occupied || (r.canceled || r.paused))) [
          | inl off ↦ rw off (length-set c.jobs.items s _)
          | inr on ↦ rw on (elim (Bool-cases r.pending_schedule) [
            | inl waits ↦ rw waits (length-set c.jobs.items s _)
            | inr idle ↦ rw idle (length-set c.jobs.items s _)
          ])
        ])
      ]

  start_job-Wakes :
      (prime : Bool) (s : Placed p) (now : DateTime)
      → AtEnd s
      → Rests (job_at p s.core s.slot)
      → WakesBut p s.slot s.core
      → Wakes p (start_job p prime s now).1
  unfolding start_job
  start_job-Wakes prime s now at_end rests w =
      let c = s.core in
      let r = job_at p c s.slot in
      let queued = queue_scheduling-Wakes p c s.slot now w in
      let again = record s { core = (queue_scheduling p c s.slot now).1 } in
      elim (Bool-cases r.paused) [
        | inl paused ↦ rw paused (close_quiet p c s.slot w (rests paused))
        | inr active ↦ rw active (elim (Bool-cases prime) [
          | inl first ↦ rw first (elim (Bool-cases r.has_next) [
            | inl next ↦ rw next (push_due_or_clear-Wakes p c s.slot w)
            | inr no_next ↦ rw no_next (close_quiet p c s.slot w (ground arith))
          ])
          | inr later ↦ rw later (elim (Bool-cases (queue_scheduling p c s.slot now).0) [
            | inl ok ↦ rw ok queued
            | inr full ↦ rw full (
                undo_job-Wakes again (λ e. ground (arith, at_end e, slots-queue c s.slot now))
                  (forget p again.core s.slot queued))
          ])
        ])
      ]

  index_job-Wakes :
      (prime : Bool) (s : Placed p) (now : DateTime)
      → AtEnd s
      → Rests (job_at p s.core s.slot)
      → WakesBut p s.slot s.core
      → Wakes p (index_job p prime s now).1
  unfolding index_job
  index_job-Wakes prime s now at_end rests w =
      let c = s.core in
      let stored = set_id p (job_at p c s.slot).id s.slot c.job_index c.world in
      let s' = record s { core = record c { job_index = stored.1; world = stored.2 } } in
      elim (Bool-cases stored.0) [
        | inl ok ↦ rw (ok, index_job) (start_job-Wakes prime s' now at_end rests w)
        | inr full ↦ rw (full, index_job) (undo_job-Wakes s' at_end w)
      ]

  -- What `place_job` leaves: a slot for the record, with the others as they were.
  record Ready (s : Placed p) : Type 0 where
    at_end : AtEnd s
    rests : Rests (job_at p s.core s.slot)
    wakes : WakesBut p s.slot s.core

  place_reused :
      (c : Core p) (s : ℕ) (r : JobRecord p) (n : ℕ)
      → Rests r
      → Rests (job_at p (set_job p c s (record r { generation = n })) s)
  place_reused c s r n rests = elim (job_at-written p c s (record r { generation = n })) [
    | inl e ↦ rw e rests
    | inr e ↦ λ paused. e
  ]

  push_job-DueIn :
      (c : Core p) (r : JobRecord p) (more : List (JobRecord p))
      → more ≡ c.jobs.items ++ r ∷ []
      → Wakes p c
      → (get_or more (slots p c) (new_job p) ≡ r)
        × ((i : ℕ) → i ≢ slots p c → DueIn p more c.due_heap.entries.items i)
  unfolding new_job
  push_job-DueIn c r more e w =
      let at = λ (i : ℕ). get_or-append c.jobs.items (r ∷ []) i (new_job p) in
      rw e (
        ground (arith, at (slots p c)),
        λ i ne. elim (Bool-cases (ltb i (slots p c))) [
          | inl below ↦
              let kept : get_or (c.jobs.items ++ r ∷ []) i (new_job p) ≡ job_at p c i =
                ground (arith, at i) in
              rw kept (w.due i)
          | inr above ↦
              let kept : get_or (c.jobs.items ++ r ∷ []) i (new_job p) ≡ new_job p =
                ground (arith, at i, get_or-out (r ∷ []) (i - slots p c) (new_job p)) in
              λ h. ground (arith)
        ],
      )

  place_job-Ready :
      (c : Core p) (r : JobRecord p)
      → Wakes p c
      → Rests r
      → (((place_job p c r).ok ≡ true) × Ready (place_job p c r))
        ⊎ (((place_job p c r).ok ≡ false) × Wakes p (place_job p c r).core)
  unfolding place_job
  place_job-Ready c r w rests =
      let slot = last_or c.free_slots.items 0 in
      let n = (job_at p c slot).generation in
      elim (Bool-cases (length c.free_slots.items == 0)) [
        | inr free ↦ rw free (
            inl (
              refl,
              record {
                at_end = λ e. ground arith;
                rests = place_reused c slot r n rests;
                wakes = set-WakesBut p c slot (record r { generation = n }) (forget p c slot w);
              },
            ))
        | inl none_free ↦ elim (push_back_lem p p.size_of_job r c.jobs c.world) [
          | inr (full, kept) ↦ rw none_free (rw full (inr (refl, rw kept w)))
          | inl (ok, added) ↦
              let (here, others) = push_job-DueIn c r _ added w in
              rw none_free (
                rw ok (
                  inl (
                    refl,
                    record {
                      at_end = λ e. ground (arith, added, length-append c.jobs.items (r ∷ []));
                      rests = rw here rests;
                      wakes = record { ordered = w.ordered; due = others };
                    },
                  )))
        ]
      ]

  -- The first schedule of a job is a next run only where it is not paused.
  first-Rests :
      (r : JobRecord p) (prime : Bool) (now : DateTime)
      → r.has_next ≡ false
      → Rests (if prime then (compute_next_for_job p r now).1 else r)
  unfolding compute_next_for_job
  first-Rests r prime now h = λ paused. ground arith

  admit_job-Wakes :
      (prime : Bool) (now : DateTime) (c : Core p) (r : JobRecord p)
      → Wakes p c
      → Rests r
      → Wakes p (admit_job p prime (place_job p c r) now).1
  unfolding admit_job index_job
  admit_job-Wakes prime now c r w rests =
      let s = place_job p c r in
      elim (place_job-Ready c r w rests) [
        | inr (full, kept) ↦ rw full kept
        | inl (ok, ready) ↦ rw ok (index_job-Wakes prime s now ready.at_end ready.rests ready.wakes)
      ]

  -- Adding a job, with success or not, keeps every wake-up.
  pub add_job-Wakes :
      (c : Core p) (schedule : ScheduleSpec p) (options : JobOptions) (callback : CallbackRef)
      (now : DateTime)
      → Wakes p c
      → Wakes p (add_job p c schedule options callback now).1
  unfolding add_job
  add_job-Wakes c schedule options callback now w =
      let named = assign_name p options.name c.world in
      let c' = record c { next_id = (c.next_id + 1) % 2 ^ 32; world = named.2 } in
      let r = record (requested_job p schedule options callback c.next_id) { name = named.1 } in
      let prime = not options.start_paused && clock_valid p c now in
      elim (Bool-cases (callback_valid callback)) [
        | inr no_callback ↦ rw no_callback w
        | inl given ↦ rw given (elim (Bool-cases (validate p schedule)) [
          | inr not_valid ↦ rw not_valid w
          | inl valid ↦ rw valid (elim (Bool-cases named.0) [
            | inr no_name ↦ rw no_name w
            | inl has_name ↦ rw has_name (
                admit_job-Wakes prime now c' _ w
                  (first-Rests r prime now (unfold requested_job in refl)))
          ])
        ])
      ]
