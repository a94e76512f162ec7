-- ===== src/Core/Sound.antt =====
-- The invariant of `SchedulerCore` (core/scheduler_core.cpp) as one predicate for its clients, the
-- service and the facade, which change executors between two calls.
use esp_scheduler.Prelude.{[], ℕ, false, ℤ}
use esp_scheduler.Platform.{Platform}
use esp_scheduler.Core.Job.{SchedulerEvent}
use esp_scheduler.Core.Scheduler.{Core, new_core, set_min_valid_unix_seconds}
use esp_scheduler.Core.Dispatch.{CoreCall, Executors, apply_call, handle_event, dispatch_due}
use esp_scheduler.Core.Due.{next_due_epoch}
use esp_scheduler.Core.Wakeup.{Wakes}
use esp_scheduler.Core.Indexed.{Indexed}
use esp_scheduler.Core.Wakeup.Reach.{
  Step, call_made, event_handled, due_dispatched, next_asked, clock_bound_set, outside_moved,
  Step-Wakes, new_core-Wakes,
}
use esp_scheduler.Core.Indexed.Reach.{Step-Indexed, new_core-Indexed}

-- No executor at all.
abbrev no_executors : (p : Platform) → Executors p
no_executors p = record {
  inline_executor = false;
  executor_for = λ id. false;
  callback_calls = λ invocation world. ([], world);
  submit = λ id invocation world. (false, world);
}

module _ (p : Platform) where
  open p use {DateTime}

  -- Each live job with a next run stands in the heap of due times, and the index of ids is a
  -- well-formed table.
  pub record IsSound (c : Core p) : Type 0 where
    pub wakes : Wakes p c
    pub indexed : Indexed p c

  pub new_core-IsSound : (min_epoch : ℤ) (world : p.World) → IsSound (new_core p min_epoch world)
  new_core-IsSound min_epoch world = record {
    wakes = new_core-Wakes p (no_executors p) min_epoch world;
    indexed = new_core-Indexed p (no_executors p) min_epoch world;
  }

  Step-IsSound :
      (executors : Executors p) {c c' : Core p} → Step p executors c c' → IsSound c → IsSound c'
  Step-IsSound executors step s = record {
    wakes = Step-Wakes p executors step s.wakes;
    indexed = Step-Indexed p executors step s.indexed;
  }

  pub apply_call-IsSound :
      (c : Core p) (call : CoreCall p) → IsSound c → IsSound (apply_call p c call)
  apply_call-IsSound c call = Step-IsSound (no_executors p) (call_made call)

  pub handle_event-IsSound :
      (executors : Executors p) (event : SchedulerEvent) (now : DateTime) (c : Core p)
      → IsSound c
      → IsSound (handle_event p executors event now c)
  handle_event-IsSound executors event now c = Step-IsSound executors (event_handled event now)

  pub dispatch_due-IsSound :
      (executors : Executors p) (rounds : ℕ) (now : DateTime) (c : Core p)
      → IsSound c
      → IsSound (dispatch_due p executors rounds now c)
  dispatch_due-IsSound executors rounds now c = Step-IsSound executors (due_dispatched rounds now)

  pub next_due_epoch-IsSound : (c : Core p) → IsSound c → IsSound (next_due_epoch p c).1
  next_due_epoch-IsSound c = Step-IsSound (no_executors p) next_asked

  pub set_min_valid-IsSound :
      (c : Core p) (min_epoch : ℤ) → IsSound c → IsSound (set_min_valid_unix_seconds p c min_epoch)
  set_min_valid-IsSound c min_epoch = Step-IsSound (no_executors p) (clock_bound_set min_epoch)

  pub world-IsSound :
      (c : Core p) (world : p.World) → IsSound c → IsSound (record c { world = world })
  world-IsSound c world = Step-IsSound (no_executors p) (outside_moved world)
