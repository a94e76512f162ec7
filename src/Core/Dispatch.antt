-- ===== src/Core/Dispatch.antt =====
-- The event side of `SchedulerCore`, core/scheduler_core.cpp: due jobs are dispatched, completions
-- handled. The executors are those of executors/: the inline one runs the callback and answers
-- `true` (inline_executor.cpp); what a callback calls on the scheduler while it runs is given as a
-- list of the calls that change the core. A callback that calls `tick` or `end` is left out.
pub mod Depth
use esp_scheduler.Prelude.{
  ◌+◌, ◌-◌, ◌%◌, ◌^◌, ◌&&◌, ◌||◌, ◌∷◌, ◌==◌, if◌then◌else◌, [], ℕ, zero, suc, Bool, true, false,
  not, Option, none, some, List, ltb, leb, pos, ltb_ℤ,
}
use esp_scheduler.Platform.{Platform}
use esp_scheduler.Schedule.Spec.{ScheduleSpec}
use esp_scheduler.Core.Array.{pop_back, last_or}
use esp_scheduler.Core.DueHeap.{DueHeapEntry, DueHeap}
use esp_scheduler.Core.DueHeap
use esp_scheduler.Core.Job.{
  JobOptions, CallbackRef, JobInvocation, SchedulerEvent, JobRecord, inline, async, queue_one,
  default_task_options, runs_once, DispatchPolicy, OverlapPolicy,
}
use esp_scheduler.Core.Scheduler.{
  Core, is_parallel, clock_valid, slots, job_at, set_job, push_due_or_clear, queue_scheduling,
  reschedule, retire_job, finalize_canceled_if_idle,
}
use esp_scheduler.Core.Calls.{cancel_job, pause_job, resume_job, cancel_all, refresh_all_schedules}
use esp_scheduler.Core.AddJob.{add_job}
use esp_scheduler.Core.Due.{drain_pending_schedules, pop_due, prune_invalid_due_entries}

-- A call of the public interface that a callback makes in manual mode.
pub data CoreCall (p : Platform) : Type 0 where
  call_add : ScheduleSpec p → JobOptions → CallbackRef → p.DateTime → CoreCall p
  call_cancel : ℕ → CoreCall p
  call_pause : ℕ → CoreCall p
  call_resume : ℕ → p.DateTime → CoreCall p
  call_cancel_all : CoreCall p
  call_refresh : p.DateTime → CoreCall p

-- `IExecutorResolver` and its executors: whether the inline one and those of each id are there, what
-- a callback calls when it runs inline, and whether an asynchronous executor takes an invocation.
pub record Executors (p : Platform) : Type 0 where
  pub inline_executor : Bool
  pub executor_for : ℕ → Bool
  pub callback_calls : JobInvocation → p.World → List (CoreCall p) × p.World
  pub submit : ℕ → JobInvocation → p.World → Bool × p.World

abbrev pub is_inline : DispatchPolicy → Bool
is_inline inline = true
is_inline async = false

abbrev pub is_queue_one : OverlapPolicy → Bool
is_queue_one queue_one = true
is_queue_one _ = false

-- The calls of `dispatchOne` that one event can nest, with one to spare.
abbrev pub depth : ℕ
depth = 3

module _ (p : Platform) where
  open p use {DateTime}

  unfoldable pub apply_call : Core p → CoreCall p → Core p
  apply_call c (call_add schedule options callback now) =
      (add_job p c schedule options callback now).1
  apply_call c (call_cancel job_id) = (cancel_job p c job_id).1
  apply_call c (call_pause job_id) = (pause_job p c job_id).1
  apply_call c (call_resume job_id now) = (resume_job p c job_id now).1
  apply_call c call_cancel_all = (cancel_all p c).1
  apply_call c (call_refresh now) = (refresh_all_schedules p c now).1

  unfoldable pub apply_calls : List (CoreCall p) → Core p → Core p
  unfolding apply_call
  apply_calls [] c = c
  apply_calls (call ∷ calls) c = apply_calls calls (apply_call c call)

  unfoldable pub invocation_of : ℕ → JobRecord p → JobInvocation
  invocation_of slot r = record {
    job_id = r.id;
    generation = r.generation;
    slot_index = slot;
    name = r.name;
    callback = r.callback;
    dedicated_task =
        if r.has_dedicated_task_options then r.dedicated_task else default_task_options p;
  }

  -- The retry in a second: no executor, the wrong one, or a refusal.
  unfoldable pub retry_later : Core p → ℕ → DateTime → Core p
  retry_later c slot now =
      push_due_or_clear p
        (set_job p c slot
          (record (job_at p c slot) { has_next = true; next_run_utc = p.add_seconds now (pos 1) }))
        slot

  module _ (executors : Executors p) where
    -- `InlineExecutor::submit`
    unfoldable pub submit_inline : JobInvocation → Core p → Core p
    unfolding apply_calls
    submit_inline invocation c =
        let (calls, world) = executors.callback_calls invocation c.world in
        apply_calls calls (record c { world = world })

    -- `handleCompletion`, given what dispatches a deferred run. `dispatchDeferredIfNeeded` is the
    -- branch on `queued_while_running`.
    unfoldable pub complete_with : (ℕ → DateTime → Core p → Core p) → ℕ → DateTime → Core p → Core p
    complete_with dispatch_deferred slot now c =
        let r₀ = job_at p c slot in
        let r = record r₀ { running_count = r₀.running_count - 1 } in
        let c' = set_job p c slot r in
        let idle = r.running_count == 0 in
        let requeued = (queue_scheduling p c' slot now).1 in
        let requeue = idle && (not r.paused && (not r.has_next && not (runs_once r))) in
        if leb (slots p c) slot
        then c
        else if not r.occupied
        then c
        else if r.canceled
        then finalize_canceled_if_idle p c' slot
        else if r.refresh_pending && idle
        then (queue_scheduling p
            (set_job p c slot (record r {
              refresh_pending = false;
              queued_while_running = false;
              has_next = false;
            }))
            slot now).1
        else if r.queued_while_running && idle
        then (if r.paused
            then c'
            else dispatch_deferred slot now
                (set_job p c slot (record r { queued_while_running = false })))
        else if requeue
        then requeued
        else if idle && (not r.has_next && runs_once r)
        then retire_job p c' slot
        else c'

    -- `dispatchOne` on an inline job whose executor is there, before `submit`.
    unfoldable pub begin_inline : Core p → ℕ → Core p
    begin_inline c slot =
        let r₀ = job_at p c slot in
        let r = record r₀ { running_count = (r₀.running_count + 1) % 2 ^ 16 } in
        if runs_once r
        then set_job p c slot (record r { has_next = false })
        else reschedule p c slot r (p.add_minutes r₀.next_run_utc (pos 1))

    -- `dispatchOne` on an asynchronous job that its executor took.
    unfoldable pub begin_async : Core p → ℕ → Bool → Core p
    begin_async c slot deferred =
        let r₀ = job_at p c slot in
        let r = record r₀ { running_count = (r₀.running_count + 1) % 2 ^ 16 } in
        if deferred || runs_once r
        then set_job p c slot (record r { has_next = false })
        else reschedule p c slot r (p.add_minutes r₀.next_run_utc (pos 1))

    unfoldable pub dispatch_async : Core p → ℕ → DateTime → Bool → Core p
    unfolding retry_later begin_async
    dispatch_async c slot now deferred =
        let r = job_at p c slot in
        let (taken, world) = executors.submit r.executor_id (invocation_of slot r) c.world in
        let c' = record c { world = world } in
        if not (executors.executor_for r.executor_id)
        then retry_later c slot now
        else if r.has_dedicated_task_options && not (r.executor_id == 1)
        then retry_later c slot now
        else if taken
        then begin_async c' slot deferred
        else retry_later c' slot now

    -- `dispatchOne` and `handleCompletion` call one another. Each call is one unit of fuel.
    unfoldable pub dispatch_one : ℕ → Bool → ℕ → DateTime → Core p → Core p
    unfolding dispatch_async begin_inline submit_inline complete_with
    dispatch_one zero deferred slot now c = c
    dispatch_one (suc depth) deferred slot now c =
        let r = job_at p c slot in
        let finished =
          complete_with (dispatch_one depth true) slot now
            (submit_inline (invocation_of slot r) (begin_inline c slot)) in
        if leb (slots p c) slot
        then c
        else if not r.occupied || (r.canceled || r.paused)
        then c
        else if is_inline r.dispatch
        then (if executors.inline_executor then finished else retry_later c slot now)
        else dispatch_async c slot now deferred

    unfoldable pub handle_completion : ℕ → DateTime → Core p → Core p
    unfolding dispatch_one
    handle_completion = complete_with (dispatch_one depth true)

    unfoldable pub handle_event : SchedulerEvent → DateTime → Core p → Core p
    unfolding handle_completion
    handle_event event now c =
        let r = job_at p c event.slot_index in
        if leb (slots p c) event.slot_index
        then c
        else if not r.occupied
            || (not (r.id == event.job_id) || not (r.generation == event.generation))
        then c
        else handle_completion event.slot_index now c

    -- What a round of the loop of `dispatchDue` does with a due entry, taken from the heap.
    unfoldable pub dispatch_entry : DueHeapEntry → DateTime → Core p → Core p
    unfolding dispatch_one
    dispatch_entry entry now c =
        let slot = entry.slot_index in
        let r = job_at p c slot in
        if r.paused
        then set_job p c slot (record r { has_next = false })
        else if ltb 0 r.running_count && not (is_parallel r.overlap)
        then set_job p c slot (record r {
          queued_while_running = r.queued_while_running || is_queue_one r.overlap;
          has_next = false;
        })
        else dispatch_one depth false slot now c

    -- One round of the loop: `none` is the end.
    unfoldable pub dispatch_round : DateTime → Core p → Option (Core p)
    unfolding dispatch_entry prune_invalid_due_entries
    dispatch_round now c =
        let c' = prune_invalid_due_entries p c in
        let entry = DueHeap.top c'.due_heap in
        let served = dispatch_entry entry now (pop_due p c') in
        if DueHeap.empty c'.due_heap
        then none
        else if ltb_ℤ (p.epoch_seconds now) entry.next_epoch
        then none
        else some served

    -- The state after at most so many rounds.
    unfoldable pub dispatch_rounds : ℕ → DateTime → Core p → Core p
    unfolding dispatch_round
    dispatch_rounds zero now c = c
    dispatch_rounds (suc left) now c = elim (dispatch_round now c) [
      | none ↦ prune_invalid_due_entries p c
      | some c' ↦ dispatch_rounds left now c'
    ]

    unfoldable pub dispatch_due : ℕ → DateTime → Core p → Core p
    unfolding dispatch_rounds drain_pending_schedules prune_invalid_due_entries
    dispatch_due rounds now c =
        if clock_valid p c now
        then dispatch_rounds rounds now
            (prune_invalid_due_entries p (drain_pending_schedules p c now))
        else c
