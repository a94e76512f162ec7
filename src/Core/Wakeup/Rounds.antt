-- ===== src/Core/Wakeup/Rounds.antt =====
-- `dispatchOne`, `handleCompletion`, `handleEvent` and `dispatchDue` of core/scheduler_core.cpp keep every
-- wake-up, whatever the callbacks call and whatever the executors answer.
use mathlib.Core.Option
use esp_scheduler.Prelude.{
  ◌+◌, ◌-◌, ◌%◌, ◌^◌, ◌≡◌, ◌⊎◌, ◌&&◌, ◌||◌, ◌==◌, if◌then◌else◌, ℕ, zero, suc, refl, inl, inr, Bool,
  true, false, not, none, some, arith, ltb, leb, Bool-cases, Option-cases, pos, ltb_ℤ,
}
use esp_scheduler.Platform.{Platform}
use esp_scheduler.Core.Job.{JobInvocation, SchedulerEvent, runs_once}
use esp_scheduler.Core.DueHeap.{DueHeapEntry, DueHeap}
use esp_scheduler.Core.DueHeap
use esp_scheduler.Core.Scheduler.{Core, slots, job_at, set_job, clock_valid, is_parallel}
use esp_scheduler.Core.Dispatch.{
  Executors, is_inline, invocation_of, submit_inline, complete_with, begin_inline, begin_async,
  dispatch_async, dispatch_one, depth, handle_completion, handle_event, dispatch_entry,
  dispatch_round, dispatch_rounds, dispatch_due,
}
use esp_scheduler.Core.Due.{pop_due, prune_invalid_due_entries}
use esp_scheduler.Core.Wakeup.{
  Wakes, WakesBut, forget, close_quiet, set-WakesBut, set-quiet, set-same, if-Wakes,
}
use esp_scheduler.Core.Wakeup.Calls.{
  outside-Wakes, reschedule-Wakes, queue_scheduling-Wakes, retire_job-Wakes,
  finalize_canceled_if_idle-Wakes,
}
use esp_scheduler.Core.Wakeup.Dispatch.{
  drain_pending_schedules-Wakes, apply_calls-Wakes, prune_invalid_due_entries-Wakes,
  pop_due-WakesBut, retry_later-Wakes,
}

-- The two tests of a round, both passed.
pub goes_on_with :
    {A : Type 0} (a b : Bool) (x y : A)
    → (if a then none else if b then none else some x) ≡ some y
    → (a ≡ false) × (x ≡ y)
goes_on_with true b x y e = cc
goes_on_with false true x y e = cc
goes_on_with false false x y e = (refl, Option.some_inj.0 e)

module _ (p : Platform) where
  open p use {DateTime}

  module _ (executors : Executors p) where
    submit_inline-Wakes :
        (invocation : JobInvocation) (c : Core p)
        → Wakes p c
        → Wakes p (submit_inline p executors invocation c)
    unfolding submit_inline
    submit_inline-Wakes invocation c w =
        let called = executors.callback_calls invocation c.world in
        apply_calls-Wakes p called.0 (record c { world = called.1 }) w

    begin_inline-Wakes :
        (c : Core p) (s : ℕ) → WakesBut p s c → Wakes p (begin_inline p executors c s)
    unfolding begin_inline
    begin_inline-Wakes c s w =
        let r₀ = job_at p c s in
        let r = record r₀ { running_count = (r₀.running_count + 1) % 2 ^ 16 } in
        elim (Bool-cases (runs_once r)) [
          | inl once ↦ rw once (set-quiet p c s _ w (ground arith))
          | inr again ↦
              rw again (reschedule-Wakes p c s r (p.add_minutes r₀.next_run_utc (pos 1)) w)
        ]

    begin_async-Wakes :
        (c : Core p) (s : ℕ) (deferred : Bool)
        → WakesBut p s c
        → Wakes p (begin_async p executors c s deferred)
    unfolding begin_async
    begin_async-Wakes c s deferred w =
        let r₀ = job_at p c s in
        let r = record r₀ { running_count = (r₀.running_count + 1) % 2 ^ 16 } in
        elim (Bool-cases (deferred || runs_once r)) [
          | inl once ↦ rw once (set-quiet p c s _ w (ground arith))
          | inr again ↦
              rw again (reschedule-Wakes p c s r (p.add_minutes r₀.next_run_utc (pos 1)) w)
        ]

    dispatch_async-Wakes :
        (c : Core p) (s : ℕ) (now : DateTime) (deferred : Bool)
        → WakesBut p s c
        → Wakes p (dispatch_async p executors c s now deferred)
    unfolding dispatch_async
    dispatch_async-Wakes c s now deferred w =
        let r = job_at p c s in
        let taken = executors.submit r.executor_id (invocation_of p s r) c.world in
        let c' = record c { world = taken.1 } in
        elim (Bool-cases (executors.executor_for r.executor_id)) [
          | inr no_executor ↦ rw no_executor (retry_later-Wakes p c s now w)
          | inl there ↦
              rw there
                (elim (Bool-cases (r.has_dedicated_task_options && not (r.executor_id == 1))) [
                  | inl wrong ↦ rw wrong (retry_later-Wakes p c s now w)
                  | inr right ↦ rw right (elim (Bool-cases taken.0) [
                    | inl ok ↦ rw ok (begin_async-Wakes c' s deferred w)
                    | inr refused ↦ rw refused (retry_later-Wakes p c' s now w)
                  ])
                ])
        ]

    module _ (again : ℕ → DateTime → Core p → Core p)
        (again-Wakes : (s : ℕ) (now : DateTime) (c : Core p)
          → Wakes p c
          → Wakes p (again s now c)) where
      complete_with-Wakes :
          (s : ℕ) (now : DateTime) (c : Core p)
          → Wakes p c
          → Wakes p (complete_with p executors again s now c)
      unfolding complete_with
      complete_with-Wakes s now c w =
          let r₀ = job_at p c s in
          let r = record r₀ { running_count = r₀.running_count - 1 } in
          let c' = set_job p c s r in
          let w' = set-same p c s r w (λ h. (h, refl)) in
          let idle = r.running_count == 0 in
          let but = set-WakesBut p c s in
          if-Wakes p (leb (slots p c) s) _ _ (λ h. w)
            λ h.
              if-Wakes p (not r.occupied) _ _ (λ h. w)
                λ h.
                  if-Wakes p r.canceled _ _ (λ h. finalize_canceled_if_idle-Wakes p c' s w')
                    λ h.
                      if-Wakes p (r.refresh_pending && idle) _ _
                        (λ h.
                          queue_scheduling-Wakes p
                            (set_job p c s (record r {
                              refresh_pending = false;
                              queued_while_running = false;
                              has_next = false;
                            }))
                            s now (but _ (forget p c s w)))
                        λ h.
                          if-Wakes p (r.queued_while_running && idle) _ _
                            (λ h.
                              if-Wakes p r.paused _ _ (λ h. w')
                                λ h.
                                  again-Wakes s now
                                    (set_job p c s (record r { queued_while_running = false }))
                                    (set-same p c s _ w (λ h. (h, refl))))
                            λ h.
                              if-Wakes p
                                (idle && (not r.paused && (not r.has_next && not (runs_once r)))) _
                                _ (λ h. queue_scheduling-Wakes p c' s now (forget p c' s w'))
                                λ h.
                                  if-Wakes p (idle && (not r.has_next && runs_once r)) _ _
                                    (λ h. retire_job-Wakes p c' s (forget p c' s w')) (λ h. w')

    -- A dispatch settles the slot that it is of, whatever becomes of the run.
    dispatch_one-Wakes :
        (fuel : ℕ) (deferred : Bool) (s : ℕ) (now : DateTime) (c : Core p)
        → WakesBut p s c
        → ((fuel ≡ 0) ⊎ ((job_at p c s).paused ≡ true) → Wakes p c)
        → Wakes p (dispatch_one p executors fuel deferred s now c)
    unfolding dispatch_one
    dispatch_one-Wakes zero deferred s now c w idle = idle (inl refl)
    dispatch_one-Wakes (suc fuel) deferred s now c w idle =
        let r = job_at p c s in
        let again : (s : ℕ) (now : DateTime) (c : Core p)
            → Wakes p c
            → Wakes p (dispatch_one p executors fuel true s now c) =
          λ s now c w. dispatch_one-Wakes fuel true s now c (forget p c s w) (λ h. w) in
        if-Wakes p (leb (slots p c) s) _ _ (λ h. outside-Wakes p c s (ground arith) w)
          λ h.
            if-Wakes p (not r.occupied || (r.canceled || r.paused)) _ _
              (λ off. elim (Bool-cases r.paused) [
                | inl paused ↦ idle (inr paused)
                | inr active ↦ close_quiet p c s w (ground arith)
              ])
              λ h.
                if-Wakes p (is_inline r.dispatch) _ _
                  (λ h.
                    if-Wakes p executors.inline_executor _ _
                      (λ h.
                        complete_with-Wakes (dispatch_one p executors fuel true) again s now _
                          (submit_inline-Wakes (invocation_of p s r) _ (begin_inline-Wakes c s w)))
                      (λ h. retry_later-Wakes p c s now w))
                  (λ h. dispatch_async-Wakes c s now deferred w)

    pub handle_event-Wakes :
        (event : SchedulerEvent) (now : DateTime) (c : Core p)
        → Wakes p c
        → Wakes p (handle_event p executors event now c)
    unfolding handle_event handle_completion
    handle_event-Wakes event now c w =
        let r = job_at p c event.slot_index in
        let again : (s : ℕ) (now : DateTime) (c : Core p)
            → Wakes p c
            → Wakes p (dispatch_one p executors depth true s now c) =
          λ s now c w. dispatch_one-Wakes depth true s now c (forget p c s w) (λ h. w) in
        if-Wakes p (leb (slots p c) event.slot_index) _ _ (λ h. w)
          λ h.
            if-Wakes p
              (not r.occupied
                || (not (r.id == event.job_id) || not (r.generation == event.generation)))
              _ _ (λ h. w)
              λ h.
                complete_with-Wakes (dispatch_one p executors depth true) again event.slot_index now
                  c w

    dispatch_entry-Wakes :
        (entry : DueHeapEntry) (now : DateTime) (c : Core p)
        → WakesBut p entry.slot_index c
        → Wakes p (dispatch_entry p executors entry now c)
    unfolding dispatch_entry
    dispatch_entry-Wakes entry now c w =
        let s = entry.slot_index in
        let r = job_at p c s in
        if-Wakes p r.paused _ _ (λ h. set-quiet p c s _ w (ground arith))
          λ active.
            if-Wakes p (ltb 0 r.running_count && not (is_parallel r.overlap)) _ _
              (λ h. set-quiet p c s _ w (ground arith))
              λ h. dispatch_one-Wakes depth false s now c w (λ h. ground arith)

    -- A round that goes on has served the entry that was due first.
    dispatch_round-Wakes :
        (now : DateTime) (c c' : Core p)
        → Wakes p c
        → dispatch_round p executors now c ≡ some c'
        → Wakes p c'
    dispatch_round-Wakes now c c' w e =
        let pruned = prune_invalid_due_entries p c in
        let w' = prune_invalid_due_entries-Wakes p c w in
        let entry = DueHeap.top pruned.due_heap in
        let served = dispatch_entry p executors entry now (pop_due p pruned) in
        let (goes_on, same) =
          goes_on_with (DueHeap.empty pruned.due_heap)
            (ltb_ℤ (p.epoch_seconds now) entry.next_epoch) served c' (unfold dispatch_round in e) in
        rw⁻¹ same
          (dispatch_entry-Wakes entry now (pop_due p pruned) (pop_due-WakesBut p pruned goes_on w'))

    dispatch_rounds-Wakes :
        (n : ℕ) (now : DateTime) (c : Core p)
        → Wakes p c
        → Wakes p (dispatch_rounds p executors n now c)
    unfolding dispatch_rounds
    dispatch_rounds-Wakes zero now c w = w
    dispatch_rounds-Wakes (suc n) now c w = elim (Option-cases (dispatch_round p executors now c)) [
      | inl over ↦ rw (over, dispatch_rounds) (prune_invalid_due_entries-Wakes p c w)
      | inr (c', more) ↦
          rw (more, dispatch_rounds)
            (dispatch_rounds-Wakes n now c' (dispatch_round-Wakes now c c' w more))
    ]

    -- Dispatching what is due, for any number of rounds, keeps every wake-up.
    pub dispatch_due-Wakes :
        (n : ℕ) (now : DateTime) (c : Core p)
        → Wakes p c
        → Wakes p (dispatch_due p executors n now c)
    unfolding dispatch_due
    dispatch_due-Wakes n now c w =
        if-Wakes p (clock_valid p c now) _ _
          (λ h.
            dispatch_rounds-Wakes n now _
              (prune_invalid_due_entries-Wakes p _ (drain_pending_schedules-Wakes p c now w)))
          (λ h. w)
