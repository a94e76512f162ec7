-- ===== src/Core/Wakeup/Reach.antt =====
-- Every state that core/scheduler_core.cpp can come to.
use esp_scheduler.Prelude.{ℕ, arith, ℤ}
use esp_scheduler.Platform.{Platform}
use esp_scheduler.Core.Job.{SchedulerEvent, new_job}
use esp_scheduler.Core.Scheduler.{Core, new_core, set_min_valid_unix_seconds}
use esp_scheduler.Core.Dispatch.{CoreCall, Executors, apply_call, handle_event, dispatch_due}
use esp_scheduler.Core.Due.{next_due_epoch}
use esp_scheduler.Core.Wakeup.{Wakes}
use esp_scheduler.Core.Wakeup.Dispatch.{apply_call-Wakes, prune_invalid_due_entries-Wakes}
use esp_scheduler.Core.Wakeup.Rounds.{handle_event-Wakes, dispatch_due-Wakes}

module _ (p : Platform) (executors : Executors p) where
  open p use {DateTime}

  -- What the service does to the core, one call at a time.
  pub data Step (c : Core p) : Core p → Type 0 where
    call_made : (call : CoreCall p) → Step c (apply_call p c call)
    event_handled :
        (event : SchedulerEvent) (now : DateTime) → Step c (handle_event p executors event now c)
    due_dispatched : (rounds : ℕ) (now : DateTime) → Step c (dispatch_due p executors rounds now c)
    next_asked : Step c (next_due_epoch p c).1
    clock_bound_set : (min_epoch : ℤ) → Step c (set_min_valid_unix_seconds p c min_epoch)
    outside_moved : (world : p.World) → Step c (record c { world = world })

  pub data Reachable : Core p → Type 0 where
    started : (min_epoch : ℤ) (world : p.World) → Reachable (new_core p min_epoch world)
    stepped : {c c' : Core p} → Reachable c → Step c c' → Reachable c'

  pub Step-Wakes : {c c' : Core p} → Step c c' → Wakes p c → Wakes p c'
  unfolding next_due_epoch set_min_valid_unix_seconds
  Step-Wakes {c} (call_made call) w = apply_call-Wakes p c call w
  Step-Wakes {c} (event_handled event now) w = handle_event-Wakes p executors event now c w
  Step-Wakes {c} (due_dispatched rounds now) w = dispatch_due-Wakes p executors rounds now c w
  Step-Wakes {c} next_asked w = prune_invalid_due_entries-Wakes p c w
  Step-Wakes (clock_bound_set min_epoch) w = w
  Step-Wakes (outside_moved world) w = w

  pub new_core-Wakes : (min_epoch : ℤ) (world : p.World) → Wakes p (new_core p min_epoch world)
  unfolding new_core new_job
  new_core-Wakes min_epoch world = record {
    ordered = λ c above h. absurd (omega arith);
    due = λ i h. ground arith;
  }

  -- In every state that the scheduler comes to from its start, the due times form a heap, and each job
  -- that is occupied, not canceled and has a next run stands in it with that run's time and with its
  -- slot and generation.
  pub Reachable-Wakes : (c : Core p) → Reachable c → Wakes p c
  Reachable-Wakes _ (started min_epoch world) = new_core-Wakes min_epoch world
  Reachable-Wakes c' (stepped {c} r step) = Step-Wakes step (Reachable-Wakes c r)
