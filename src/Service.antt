-- ===== src/Service.antt =====
-- The background task of service/scheduler_service.h and .cpp: its state, and what it does in a
-- round of its loop. The stretch between two calls of the outside is one step.
pub mod Commands
pub mod Wait
pub mod Rounds
pub mod Reach
pub mod InTime
pub mod Ownership
use esp_scheduler.Prelude.{
  ◌+◌, ◌++◌, ◌&&◌, ◌||◌, ◌∷◌, if◌then◌else◌, [], ℕ, Bool, true, false, not, Option, none, some,
  List, ℤ,
}
use esp_scheduler.Platform.{Platform}
use esp_scheduler.Freertos.{Queues}
use esp_scheduler.Freertos.Drain.{receive_all, enough}
use esp_scheduler.Executor.Task.{TaskSupport, create_task_pinned}
use esp_scheduler.Core.Job.{SchedulerEvent, present}
use esp_scheduler.Core.Scheduler.{Core, new_core, clock_valid}
use esp_scheduler.Core.Calls.{refresh_all_schedules, active_invocation_count}
use esp_scheduler.Core.Dispatch.{Executors, handle_event, dispatch_due}
use esp_scheduler.Core.Due.{next_due_epoch}
use esp_scheduler.Service.Commands.{ServiceCommand, Reply, execute, new_result}
use esp_scheduler.Service.Wait.{next_wake_ticks}

pub record SchedulerServiceConfig : Type 0 where
  pub command_queue_depth : ℕ
  pub event_queue_depth : ℕ
  pub task_stack_size : ℕ
  pub use_psram_stack : Bool
  pub control_timeout_ms : ℕ

-- What both the service and the facade keep to see a new local day: `timeContextRefreshRequested`,
-- `lastObservedLocalDayStartUtc` and `hasLastObservedLocalDayStartUtc`.
pub record TimeContext (p : Platform) : Type 0 where
  pub refresh_requested : Bool
  pub last_observed : p.DateTime
  pub has_last_observed : Bool

-- A null pointer in the command queue only wakes the task.
pub record SchedulerService (p : Platform) (q : Queues) : Type 0 where
  pub config : SchedulerServiceConfig
  pub core : Core p
  pub context : TimeContext p
  pub command_queue : Option (q.Queue (Option (ServiceCommand p)))
  pub event_queue : Option (q.Queue SchedulerEvent)
  pub queue_set : Bool
  pub task : Bool
  pub task_created_with_caps : Bool
  pub started : Bool
  pub active_count : ℕ

-- Which of the two queues and the queue set are created.
pub record Created : Type 0 where
  pub commands_created : Bool
  pub events_created : Bool
  pub set_created : Bool

module _ (p : Platform) (q : Queues) where
  open p use {DateTime}

  -- The constructor.
  unfoldable pub new_service :
      SchedulerServiceConfig → ℤ → TimeContext p → p.World → SchedulerService p q
  unfolding new_core
  new_service config min_epoch context world = record {
    config = config;
    core = new_core p min_epoch world;
    context = context;
    command_queue = none;
    event_queue = none;
    queue_set = false;
    task = false;
    task_created_with_caps = false;
    started = false;
    active_count = 0;
  }

  -- A command that is still queued when the service stops is answered as it was made.
  unfoldable pub drop_command : Option (ServiceCommand p) → List (Reply p) → List (Reply p)
  unfolding new_result
  drop_command none replies = replies
  drop_command (some command) replies = replies ++ (new_result p command ∷ [])

  -- `stop`, from where the task has ended: the answers of the commands that it did not serve.
  unfoldable pub stop : SchedulerService p q → List (Reply p) × SchedulerService p q
  unfolding drop_command
  stop s =
      let dropped : List (Reply p) = elim s.command_queue [
        | none ↦ []
        | some w ↦ (receive_all q drop_command (enough q w) w []).1
      ] in
      if not (present s.command_queue)
        && (not (present s.event_queue) && (not s.queue_set && not s.task))
      then ([], record s { started = false })
      else (
        dropped,
        record s {
          command_queue = none;
          event_queue = none;
          queue_set = false;
          task = false;
          task_created_with_caps = false;
          started = false;
        },
      )

  unfoldable pub begin_service :
      TaskSupport → Created → SchedulerService p q → Bool × SchedulerService p q
  unfolding stop
  begin_service support created s =
      let commands = q.create (Option (ServiceCommand p)) s.config.command_queue_depth in
      let events = q.create SchedulerEvent s.config.event_queue_depth in
      let queued = record s {
        command_queue = if created.commands_created then some commands else none;
        event_queue = if created.events_created then some events else none;
      } in
      let (made, with_caps) =
        create_task_pinned support s.config.task_stack_size s.config.use_psram_stack in
      if s.started
      then (true, s)
      else if not created.commands_created || not created.events_created
      then (false, (stop queued).1)
      else if not created.set_created
      then (false, (stop queued).1)
      else if not made
      then (false, (stop (record queued { queue_set = true })).1)
      else (
        true,
        record queued {
          queue_set = true;
          task = true;
          task_created_with_caps = with_caps;
          started = true;
        },
      )

  unfoldable pub send :
      Option (ServiceCommand p) → SchedulerService p q → Bool × SchedulerService p q
  send command s = elim s.command_queue [
    | none ↦ (false, s)
    | some w ↦ (
      (q.send (Option (ServiceCommand p)) command w).0,
      record s { command_queue = some (q.send (Option (ServiceCommand p)) command w).1 },
    )
  ]

  -- `date.now()`
  module _ (date_now : p.World → DateTime × p.World) where
    -- The body of the loop of `drainCommands`; the replies are those given so far.
    unfoldable pub serve_command :
        Option (ServiceCommand p) → List (Reply p) × Core p → List (Reply p) × Core p
    unfolding execute
    serve_command none (replies, c) = (replies, c)
    serve_command (some command) (replies, c) =
        let (now, world) = date_now c.world in
        let (reply, c') = execute p command now (record c { world = world }) in
        (replies ++ (reply ∷ []), c')

    unfoldable pub drain_commands : SchedulerService p q → List (Reply p) × SchedulerService p q
    unfolding serve_command
    drain_commands s = elim s.command_queue [
      | none ↦ ([], s)
      | some w ↦
          let (w', (replies, c)) = receive_all q serve_command (enough q w) w ([], s.core) in
          (replies, record s { command_queue = some w'; core = c })
    ]

    module _ (executors : Executors p) where
      unfoldable pub serve_event : SchedulerEvent → Core p → Core p
      unfolding handle_event
      serve_event event c =
          let (now, world) = date_now c.world in
          handle_event p executors event now (record c { world = world })

      unfoldable pub drain_events : SchedulerService p q → SchedulerService p q
      unfolding serve_event
      drain_events s = elim s.event_queue [
        | none ↦ s
        | some w ↦
            let (w', c) = receive_all q serve_event (enough q w) w s.core in
            record s { event_queue = some w'; core = c }
      ]

      unfoldable pub refresh_time_context_if_needed :
          DateTime → SchedulerService p q → SchedulerService p q
      refresh_time_context_if_needed now s =
          let today = p.start_of_day_local now in
          let first = not s.context.has_last_observed in
          let new_day = not (p.is_equal today s.context.last_observed) in
          let context : TimeContext p =
            if first
            then record {
              refresh_requested = false;
              last_observed = today;
              has_last_observed = true;
            }
            else if new_day
            then record (s.context) { refresh_requested = false; last_observed = today }
            else record (s.context) { refresh_requested = false } in
          let refresh =
            if first
            then s.context.refresh_requested
            else if new_day
            then true
            else s.context.refresh_requested in
          if refresh
          then record s { context = context; core = (refresh_all_schedules p s.core now).1 }
          else record s { context = context }

      -- `dispatchDue` and what follows it: the time for which the task then waits, in ticks.
      unfoldable pub dispatch_and_wait :
          ℕ → DateTime → SchedulerService p q → ℕ × SchedulerService p q
      dispatch_and_wait rounds now s =
          let c = dispatch_due p executors rounds now s.core in
          let s' = record s { core = c; active_count = active_invocation_count p c } in
          let (next_due, c') = next_due_epoch p c in
          let idle_ticks = q.pd_ms_to_ticks 1000 in
          if clock_valid p c now
          then (next_wake_ticks p q now next_due idle_ticks, record s' { core = c' })
          else (idle_ticks, s')

      -- The body of the loop of `run`, with the rounds of the loop of `dispatchDue`.
      unfoldable pub round : ℕ → SchedulerService p q → List (Reply p) × (ℕ × SchedulerService p q)
      unfolding drain_commands drain_events refresh_time_context_if_needed dispatch_and_wait
      round rounds s =
          let (replies, served) = drain_commands s in
          let handled = drain_events served in
          let (now, world) = date_now handled.core.world in
          let observed = record handled { core = record (handled.core) { world = world } } in
          (replies, dispatch_and_wait rounds now (refresh_time_context_if_needed now observed))
