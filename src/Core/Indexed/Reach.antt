-- ===== src/Core/Indexed/Reach.antt =====
-- Dispatch and completion in core/scheduler_core.cpp keep the index well formed, and so every reachable
-- state has a well-formed index.
use esp_scheduler.Prelude.{
  ◌+◌, ◌-◌, ◌%◌, ◌^◌, ◌≡◌, ◌&&◌, ◌||◌, ◌==◌, ℕ, zero, suc, inl, inr, Bool, true, false, not, arith,
  ltb, leb, Option-cases, ℤ, pos, ltb_ℤ,
}
use esp_scheduler.Platform.{Platform}
use esp_scheduler.Core.Job.{JobInvocation, SchedulerEvent, runs_once}
use esp_scheduler.Core.DueHeap.{DueHeapEntry, DueHeap}
use esp_scheduler.Core.DueHeap
use esp_scheduler.Core.Scheduler.{Core, slots, job_at, set_job, clock_valid, is_parallel}
use esp_scheduler.Core.Dispatch.{
  Executors, is_inline, depth, invocation_of, submit_inline, complete_with, begin_inline,
  begin_async, dispatch_async, dispatch_one, handle_completion, handle_event, dispatch_entry,
  dispatch_round, dispatch_rounds, dispatch_due,
}
use esp_scheduler.Core.Due.{
  drain_pending_schedules, pop_due, prune_invalid_due_entries, next_due_epoch,
}
use esp_scheduler.Core.Job.{not_found, failure}
use esp_scheduler.Core.Wakeup.Reach.{
  Step, call_made, event_handled, due_dispatched, next_asked, clock_bound_set, outside_moved,
  Reachable, started, stepped,
}
use esp_scheduler.Core.Indexed.{
  Indexed, if-Indexed, reschedule-index, queue_scheduling-index, retire_job-Indexed,
  finalize-Indexed,
}
use esp_scheduler.Core.Scheduler.{new_core, set_min_valid_unix_seconds}
use esp_scheduler.Core.Calls.{cancel_job}
use esp_scheduler.Core.Scheduler.{find_job_slot}
use esp_scheduler.Core.Requests.ById.{find_job_slot-cancel_job}
use esp_scheduler.Core.Wakeup.Rounds.{goes_on_with}
use esp_scheduler.Core.Indexed.Run.{
  apply_call-Indexed, apply_calls-Indexed, drain_pending_schedules-index, prune-Indexed,
  retry_later-index,
}

module _ (p : Platform) (executors : Executors p) where
  open p use {DateTime}

  submit_inline-Indexed :
      (invocation : JobInvocation) (c : Core p)
      → Indexed p c
      → Indexed p (submit_inline p executors invocation c)
  unfolding submit_inline
  submit_inline-Indexed invocation c v =
      let called = executors.callback_calls invocation c.world in
      apply_calls-Indexed p called.0 (record c { world = called.1 }) v

  begin_inline-index : (c : Core p) (s : ℕ) → (begin_inline p executors c s).job_index ≡ c.job_index
  unfolding begin_inline
  begin_inline-index c s =
      let r₀ = job_at p c s in
      let r = record r₀ { running_count = (r₀.running_count + 1) % 2 ^ 16 } in
      ground (arith, reschedule-index p c s r (p.add_minutes r₀.next_run_utc (pos 1)))

  begin_async-index :
      (c : Core p) (s : ℕ) (deferred : Bool)
      → (begin_async p executors c s deferred).job_index ≡ c.job_index
  unfolding begin_async
  begin_async-index c s deferred =
      let r₀ = job_at p c s in
      let r = record r₀ { running_count = (r₀.running_count + 1) % 2 ^ 16 } in
      ground (arith, reschedule-index p c s r (p.add_minutes r₀.next_run_utc (pos 1)))

  dispatch_async-index :
      (c : Core p) (s : ℕ) (now : DateTime) (deferred : Bool)
      → (dispatch_async p executors c s now deferred).job_index ≡ c.job_index
  unfolding dispatch_async
  dispatch_async-index c s now deferred =
      let r = job_at p c s in
      let c' = record c {
        world = (executors.submit r.executor_id (invocation_of p s r) c.world).1;
      } in
      ground (
        arith,
        retry_later-index p c s now,
        retry_later-index p c' s now,
        begin_async-index c' s deferred,
      )

  module _ (again : ℕ → DateTime → Core p → Core p)
      (again-Indexed : (s : ℕ) (now : DateTime) (c : Core p)
        → Indexed p c
        → Indexed p (again s now c)) where
    complete_with-Indexed :
        (s : ℕ) (now : DateTime) (c : Core p)
        → Indexed p c
        → Indexed p (complete_with p executors again s now c)
    unfolding complete_with
    complete_with-Indexed s now c v =
        let r₀ = job_at p c s in
        let r = record r₀ { running_count = r₀.running_count - 1 } in
        let c' = set_job p c s r in
        let idle = r.running_count == 0 in
        let refreshed =
          set_job p c s (record r {
            refresh_pending = false;
            queued_while_running = false;
            has_next = false;
          }) in
        if-Indexed p (leb (slots p c) s) _ _ (λ h. v)
          λ h.
            if-Indexed p (not r.occupied) _ _ (λ h. v)
              λ h.
                if-Indexed p r.canceled _ _ (λ h. finalize-Indexed p c' s v)
                  λ h.
                    if-Indexed p (r.refresh_pending && idle) _ _
                      (λ h. rw (queue_scheduling-index p refreshed s now) v)
                      λ h.
                        if-Indexed p (r.queued_while_running && idle) _ _
                          (λ h.
                            if-Indexed p r.paused _ _ (λ h. v)
                              λ h.
                                again-Indexed s now
                                  (set_job p c s (record r { queued_while_running = false })) v)
                          λ h.
                            if-Indexed p
                              (idle && (not r.paused && (not r.has_next && not (runs_once r)))) _ _
                              (λ h. rw (queue_scheduling-index p c' s now) v)
                              λ h.
                                if-Indexed p (idle && (not r.has_next && runs_once r)) _ _
                                  (λ h. retire_job-Indexed p c' s v) (λ h. v)

  dispatch_one-Indexed :
      (fuel : ℕ) (deferred : Bool) (s : ℕ) (now : DateTime) (c : Core p)
      → Indexed p c
      → Indexed p (dispatch_one p executors fuel deferred s now c)
  unfolding dispatch_one
  dispatch_one-Indexed zero deferred s now c v = v
  dispatch_one-Indexed (suc fuel) deferred s now c v =
      let r = job_at p c s in
      let begun = begin_inline p executors c s in
      if-Indexed p (leb (slots p c) s) _ _ (λ h. v)
        λ h.
          if-Indexed p (not r.occupied || (r.canceled || r.paused)) _ _ (λ h. v)
            λ h.
              if-Indexed p (is_inline r.dispatch) _ _
                (λ h.
                  if-Indexed p executors.inline_executor _ _
                    (λ h.
                      complete_with-Indexed (dispatch_one p executors fuel true)
                        (dispatch_one-Indexed fuel true) s now
                        (submit_inline p executors (invocation_of p s r) begun)
                        (submit_inline-Indexed (invocation_of p s r) begun
                          (rw (begin_inline-index c s) v)))
                    (λ h. rw (retry_later-index p c s now) v))
                (λ h. rw (dispatch_async-index c s now deferred) v)

  handle_event-Indexed :
      (event : SchedulerEvent) (now : DateTime) (c : Core p)
      → Indexed p c
      → Indexed p (handle_event p executors event now c)
  unfolding handle_event handle_completion
  handle_event-Indexed event now c v =
      let r = job_at p c event.slot_index in
      if-Indexed p (leb (slots p c) event.slot_index) _ _ (λ h. v)
        λ h.
          if-Indexed p
            (not r.occupied
              || (not (r.id == event.job_id) || not (r.generation == event.generation)))
            _ _ (λ h. v)
            λ h.
              complete_with-Indexed (dispatch_one p executors depth true)
                (dispatch_one-Indexed depth true) event.slot_index now c v

  dispatch_entry-Indexed :
      (entry : DueHeapEntry) (now : DateTime) (c : Core p)
      → Indexed p c
      → Indexed p (dispatch_entry p executors entry now c)
  unfolding dispatch_entry
  dispatch_entry-Indexed entry now c v =
      let s = entry.slot_index in
      let r = job_at p c s in
      if-Indexed p r.paused _ _ (λ h. v)
        λ h.
          if-Indexed p (ltb 0 r.running_count && not (is_parallel r.overlap)) _ _ (λ h. v)
            λ h. dispatch_one-Indexed depth false s now c v

  dispatch_rounds-Indexed :
      (n : ℕ) (now : DateTime) (c : Core p)
      → Indexed p c
      → Indexed p (dispatch_rounds p executors n now c)
  unfolding dispatch_rounds
  dispatch_rounds-Indexed zero now c v = v
  dispatch_rounds-Indexed (suc n) now c v = elim (Option-cases (dispatch_round p executors now c)) [
    | inl over ↦ rw (over, dispatch_rounds) (prune-Indexed p c v)
    | inr (c', more) ↦
        let pruned = prune_invalid_due_entries p c in
        let entry = DueHeap.top pruned.due_heap in
        let served = dispatch_entry p executors entry now (pop_due p pruned) in
        let (goes_on, same) =
          goes_on_with (DueHeap.empty pruned.due_heap)
            (ltb_ℤ (p.epoch_seconds now) entry.next_epoch) served c'
            (unfold dispatch_round in more) in
        let v' : Indexed p c' =
          rw⁻¹ same (dispatch_entry-Indexed entry now (pop_due p pruned) (prune-Indexed p c v)) in
        rw (more, dispatch_rounds) (dispatch_rounds-Indexed n now c' v')
  ]

  pub Step-Indexed : {c c' : Core p} → Step p executors c c' → Indexed p c → Indexed p c'
  unfolding next_due_epoch set_min_valid_unix_seconds dispatch_due
  Step-Indexed {c} (call_made call) v = apply_call-Indexed p c call v
  Step-Indexed {c} (event_handled event now) v = handle_event-Indexed event now c v
  Step-Indexed {c} (due_dispatched rounds now) v =
      let drained = drain_pending_schedules p c now in
      if-Indexed p (clock_valid p c now) _ _
        (λ h.
          dispatch_rounds-Indexed rounds now (prune_invalid_due_entries p drained)
            (prune-Indexed p drained (rw (drain_pending_schedules-index p c now) v)))
        (λ h. v)
  Step-Indexed {c} next_asked v = prune-Indexed p c v
  Step-Indexed (clock_bound_set min_epoch) v = v
  Step-Indexed (outside_moved world) v = v

  pub new_core-Indexed : (min_epoch : ℤ) (world : p.World) → Indexed p (new_core p min_epoch world)
  unfolding new_core
  new_core-Indexed min_epoch world = record {
    reached = λ i h o. absurd (omega arith);
    unique = λ i j id h k a b. absurd (omega arith);
    nonzero = λ i h o. absurd (omega arith);
  }

  -- In every state that the scheduler comes to from its start, the index of job ids is a well-formed
  -- table: no id stands in it twice, none is 0, and each can be found by probing.
  pub Reachable-Indexed : (c : Core p) → Reachable p executors c → Indexed p c
  Reachable-Indexed _ (started min_epoch world) = new_core-Indexed min_epoch world
  Reachable-Indexed c' (stepped {c} r step) = Step-Indexed step (Reachable-Indexed c r)

  -- In every state that the scheduler comes to, an id is not found once it has been canceled, whether it
  -- was known or not and whether its job was idle or still runs.
  pub find_job_slot-cancel_job-Reachable :
      (c : Core p) (id : ℕ)
      → Reachable p executors c
      → find_job_slot p (cancel_job p c id).1 id ≡ failure not_found
  find_job_slot-cancel_job-Reachable c id r =
      find_job_slot-cancel_job p c id (Reachable-Indexed c r)
