-- ===== src/Tests/Service.antt =====
-- The service, and the ownership of its commands, on the sample platform.
use esp_scheduler.Prelude.{
  ◌≡◌, ◌∷◌, ◌≤◌, [], ℕ, refl, true, false, Bool, List, ◌-ℤ◌, none, some, Option, arith, pos,
  if◌then◌else◌, ◌&&◌, not, ◌+ℤ◌,
}
use esp_scheduler.Tests.Sample.{sample}
use esp_scheduler.Tests.Queues.{list_queues, list_queues-IsFifo}
use esp_scheduler.Tests.Core.{
  valid_in_the_morning, live_in_the_morning, inline_only, options, callback, one_job, started_core,
  one_job-Reachable,
}
use esp_scheduler.Schedule.Spec.{once_utc}
use esp_scheduler.Core.Scheduler.{Core}
use esp_scheduler.Core.Sound.{IsSound}
use esp_scheduler.Core.Wakeup.Reach.{Reachable-Wakes}
use esp_scheduler.Core.Indexed.Reach.{Reachable-Indexed}
use esp_scheduler.Service.{
  SchedulerServiceConfig, TimeContext, SchedulerService, dispatch_and_wait, drain_commands,
}
use esp_scheduler.Service.Commands.{ServiceCommand, add_job_command, job_count_command}
use esp_scheduler.Service.Rounds.{execute_in_order, drain_commands-execute_in_order}
use esp_scheduler.Service.Wait.{WaitsUpTo, next_wake_ticks, next_wake_ticks-WaitsUpTo}
use esp_scheduler.Service.InTime.{EndsBy, dispatch_and_wait-EndsBy}
use esp_scheduler.Core.Wakeup.Next.{next_epoch_of}
use esp_scheduler.Core.Dispatch.{dispatch_due}
use esp_scheduler.Service.Ownership.{
  Handoff, new_handoff, touch, HandoffReachable, built, moved, send_taken, wait_times_out, abandon,
  receive, execute, decide, signal, keep, delete_abandoned, unsent, returned, queued, finished,
  HandoffReachable-FreedOnce,
}

abbrev pub config : SchedulerServiceConfig
config = record {
  command_queue_depth = 16;
  event_queue_depth = 16;
  task_stack_size = 4096;
  use_psram_stack = false;
  control_timeout_ms = 2000;
}

abbrev pub fresh : TimeContext sample
fresh = record { refresh_requested = false; last_observed = 0; has_last_observed = false }

-- The clock stands at 08:20.
abbrev pub morning : ℕ → ℕ × ℕ
morning world = (500, world)

abbrev pub two_commands : List (Option (ServiceCommand sample))
two_commands =
    some (add_job_command (once_utc sample 600) options callback)
    ∷ none
    ∷ some job_count_command
    ∷ []

-- A started service over a core, with commands in its queue.
abbrev pub service_of :
    Core sample → List (Option (ServiceCommand sample)) → SchedulerService sample list_queues
service_of c commands = record {
  config = config;
  core = c;
  context = fresh;
  command_queue = some (16, commands);
  event_queue = some (16, []);
  queue_set = true;
  task = true;
  task_created_with_caps = false;
  started = true;
  active_count = 0;
}

drain_commands-execute_in_order_example :
    let s = service_of started_core two_commands in
    ((drain_commands sample list_queues morning s).0
      ≡ (execute_in_order sample list_queues morning two_commands started_core).0)
    × ((drain_commands sample list_queues morning s).1.core
        ≡ (execute_in_order sample list_queues morning two_commands started_core).1)
    × ((w' : ℕ × List (Option (ServiceCommand sample))) × ((drain_commands sample list_queues
            morning s).1.command_queue
          ≡ some w')
        × (w'.1 ≡ []))
drain_commands-execute_in_order_example =
    drain_commands-execute_in_order sample list_queues morning list_queues-IsFifo
      (service_of started_core two_commands) (16, two_commands) refl

-- From 08:20 to 10:00 the task waits for 6000 seconds.
next_wake_ticks-WaitsUpTo_example :
    WaitsUpTo sample list_queues 500
      (pos 36000)
      (next_wake_ticks sample list_queues 500 (some (pos 36000)) 100)
unfolding ◌+ℤ◌
next_wake_ticks-WaitsUpTo_example =
    next_wake_ticks-WaitsUpTo sample list_queues 500 (pos 36000) 100 (omega arith) (omega arith)

six_thousand_seconds : next_wake_ticks sample list_queues 500 (some (pos 36000)) 100 ≡ 600000
unfolding next_wake_ticks ◌-ℤ◌
six_thousand_seconds = refl

one_job-IsSound : IsSound sample one_job
one_job-IsSound = record {
  wakes = Reachable-Wakes sample inline_only one_job one_job-Reachable;
  indexed = Reachable-Indexed sample inline_only one_job one_job-Reachable;
}

dispatch_and_wait-EndsBy_example :
    EndsBy sample list_queues 500 2
      (next_epoch_of sample (dispatch_due sample inline_only 5 500 one_job) 0 +ℤ pos 2)
      (dispatch_and_wait sample list_queues morning inline_only 5 500 (service_of one_job [])).0
unfolding ◌+ℤ◌
dispatch_and_wait-EndsBy_example =
    dispatch_and_wait-EndsBy sample list_queues morning inline_only 5 500 2 (service_of one_job [])
      0 one_job-IsSound valid_in_the_morning (omega arith) (omega arith) live_in_the_morning

-- The producer gives up while the command waits, and the service frees it.
abbrev timed_out : Handoff
timed_out = record new_handoff { producer = returned; server = queued; abandoned = true }

timed_out-HandoffReachable : HandoffReachable timed_out
unfolding touch
timed_out-HandoffReachable =
    moved (moved (moved built (send_taken refl refl)) (wait_times_out refl refl refl))
      (abandon refl refl)

abbrev freed_by_service : Handoff
freed_by_service = record timed_out { server = finished true; completion = true; freed = 1 }

freed_by_service-HandoffReachable : HandoffReachable freed_by_service
unfolding touch
freed_by_service-HandoffReachable =
    moved
      (moved
        (moved (moved (moved timed_out-HandoffReachable (receive refl refl)) (execute refl refl))
          (decide refl refl))
        (signal true refl refl))
      (delete_abandoned refl refl)

HandoffReachable-FreedOnce_example :
    (freed_by_service.freed ≤ 1)
    × (freed_by_service.touched_late ≡ 0)
    × (freed_by_service.producer ≡ returned
        → freed_by_service.server ≡ unsent
        → freed_by_service.freed ≡ 1)
    × ((should_delete : Bool)
        → freed_by_service.producer ≡ returned
        → freed_by_service.server ≡ finished should_delete
        → freed_by_service.freed
          ≡ (if freed_by_service.abandoned && not should_delete then 0 else 1))
HandoffReachable-FreedOnce_example =
    HandoffReachable-FreedOnce freed_by_service freed_by_service-HandoffReachable

-- The producer gives up after the service has looked at the mark, and nobody frees the command.
abbrev leaked : Handoff
leaked = record new_handoff {
  producer = returned;
  server = finished false;
  completion = true;
  abandoned = true;
}

leaked-HandoffReachable : HandoffReachable leaked
unfolding touch
leaked-HandoffReachable =
    moved
      (moved
        (moved
          (moved
            (moved
              (moved (moved (moved built (send_taken refl refl)) (receive refl refl))
                (execute refl refl))
              (decide refl refl))
            (wait_times_out refl refl refl))
          (abandon refl refl))
        (signal false refl refl))
      (keep refl refl)
