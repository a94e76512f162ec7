-- ===== src/Service/Reach.antt =====
-- The steps of the background service of service/scheduler_service.cpp, and its core through them.
use esp_scheduler.Prelude.{
  ◌≡◌, [], ℕ, Bool, true, false, Option, none, some, List, arith, if◌then◌else◌, inl, inr,
  Option-cases, Bool-cases,
}
use esp_scheduler.Platform.{Platform}
use esp_scheduler.Freertos.{Queues}
use esp_scheduler.Freertos.Drain.{enough, receive_all_invariant}
use esp_scheduler.Executor.Task.{TaskSupport}
use esp_scheduler.Core.Job.{SchedulerEvent}
use esp_scheduler.Core.Scheduler.{Core, clock_valid}
use esp_scheduler.Core.Dispatch.{Executors, call_refresh, apply_call, dispatch_due}
use esp_scheduler.Core.Sound.{
  IsSound, apply_call-IsSound, handle_event-IsSound, dispatch_due-IsSound, next_due_epoch-IsSound,
  world-IsSound,
}
use esp_scheduler.Service.Commands.{ServiceCommand, Reply, execute-IsSound}
use esp_scheduler.Service.{
  SchedulerService, Created, stop, begin_service, send, serve_command, drain_commands, serve_event,
  drain_events, refresh_time_context_if_needed, dispatch_and_wait, round,
}

module _ (p : Platform) (q : Queues) where
  pub stop-core : (s : SchedulerService p q) → (stop p q s).1.core ≡ s.core
  unfolding stop
  stop-core s = ground arith

  pub begin_service-core :
      (support : TaskSupport) (created : Created) (s : SchedulerService p q)
      → (begin_service p q support created s).1.core ≡ s.core
  unfolding begin_service
  begin_service-core support created s =
      let queued = record s {
        command_queue =
            if created.commands_created
            then some (q.create (Option (ServiceCommand p)) s.config.command_queue_depth)
            else none;
        event_queue =
            if created.events_created
            then some (q.create SchedulerEvent s.config.event_queue_depth)
            else none;
      } in
      ground (arith, stop-core queued, stop-core (record queued { queue_set = true }))

  pub send-core :
      (command : Option (ServiceCommand p)) (s : SchedulerService p q)
      → (send p q command s).1.core ≡ s.core
  unfolding send
  send-core command s = ground arith

module _ (p : Platform) (q : Queues) (date_now : p.World → p.DateTime × p.World)
    (executors : Executors p) where
  open p use {DateTime}

  -- A test, by its two branches.
  if-IsSound :
      (b : Bool) (x y : SchedulerService p q)
      → IsSound p x.core
      → IsSound p y.core
      → IsSound p (if b then x else y).core
  if-IsSound true x y v w = v
  if-IsSound false x y v w = w

  serve_command-IsSound :
      (command : Option (ServiceCommand p)) (s : List (Reply p) × Core p)
      → IsSound p s.1
      → IsSound p (serve_command p q date_now command s).1
  unfolding serve_command
  serve_command-IsSound none s v = v
  serve_command-IsSound (some command) (replies, c) v =
      let (now, world) = date_now c.world in
      execute-IsSound p command now (record c { world = world }) (world-IsSound p c world v)

  drain_commands-IsSound :
      (s : SchedulerService p q)
      → IsSound p s.core
      → IsSound p (drain_commands p q date_now s).1.core
  unfolding drain_commands
  drain_commands-IsSound s v = elim (Option-cases s.command_queue) [
    | inl absent ↦ rw (absent, drain_commands) v
    | inr (w, there) ↦
        rw (there, drain_commands)
          (receive_all_invariant q (λ (r : List (Reply p) × Core p). IsSound p r.1)
            (serve_command p q date_now) serve_command-IsSound (enough q w) w ([], s.core) v)
  ]

  drain_events-IsSound :
      (s : SchedulerService p q)
      → IsSound p s.core
      → IsSound p (drain_events p q date_now executors s).core
  unfolding drain_events serve_event
  drain_events-IsSound s v = elim (Option-cases s.event_queue) [
    | inl absent ↦ rw (absent, drain_events) v
    | inr (w, there) ↦
        rw (there, drain_events)
          (receive_all_invariant q (IsSound p) (serve_event p q date_now executors)
            (λ event c u.
              let (now, world) = date_now c.world in
              handle_event-IsSound p executors event now (record c { world = world })
                (world-IsSound p c world u))
            (enough q w) w s.core v)
  ]

  refresh_time_context_if_needed-IsSound :
      (now : DateTime) (s : SchedulerService p q)
      → IsSound p s.core
      → IsSound p (refresh_time_context_if_needed p q date_now executors now s).core
  unfolding refresh_time_context_if_needed apply_call
  refresh_time_context_if_needed-IsSound now s v =
      if-IsSound _ _ _ (apply_call-IsSound p s.core (call_refresh now) v) v

  dispatch_and_wait-IsSound :
      (rounds : ℕ) (now : DateTime) (s : SchedulerService p q)
      → IsSound p s.core
      → IsSound p (dispatch_and_wait p q date_now executors rounds now s).1.core
  unfolding dispatch_and_wait
  dispatch_and_wait-IsSound rounds now s v =
      let c = dispatch_due p executors rounds now s.core in
      let sound = dispatch_due-IsSound p executors rounds now s.core v in
      elim (Bool-cases (clock_valid p c now)) [
        | inl valid ↦ rw (valid, dispatch_and_wait) (next_due_epoch-IsSound p c sound)
        | inr early ↦ rw (early, dispatch_and_wait) sound
      ]

  round-IsSound :
      (rounds : ℕ) (s : SchedulerService p q)
      → IsSound p s.core
      → IsSound p (round p q date_now executors rounds s).1.1.core
  unfolding round
  round-IsSound rounds s v =
      let handled = drain_events p q date_now executors (drain_commands p q date_now s).1 in
      let (now, world) = date_now handled.core.world in
      let observed = record handled { core = record (handled.core) { world = world } } in
      dispatch_and_wait-IsSound rounds now
        (refresh_time_context_if_needed p q date_now executors now observed)
        (refresh_time_context_if_needed-IsSound now observed (
          world-IsSound p handled.core world
            (drain_events-IsSound (drain_commands p q date_now s).1 (drain_commands-IsSound s v))))

  -- What happens to a service: its task runs a round, other tasks send commands and wake it, executors
  -- post completions, the clock is set, the outside moves, and it is started and stopped.
  pub data ServiceStep (s : SchedulerService p q) : SchedulerService p q → Type 0 where
    began :
        (support : TaskSupport) (created : Created)
        → ServiceStep s (begin_service p q support created s).1
    sent : (command : Option (ServiceCommand p)) → ServiceStep s (send p q command s).1
    posted :
        (event : SchedulerEvent) (w : q.Queue SchedulerEvent)
        → s.event_queue ≡ some w
        → ServiceStep s (record s { event_queue = some (q.send SchedulerEvent event w).1 })
    refresh_asked :
        ServiceStep s (record s { context = record (s.context) { refresh_requested = true } })
    outside_changed :
        (world : p.World) → ServiceStep s (record s { core = record (s.core) { world = world } })
    ran : (rounds : ℕ) → s.task ≡ true → ServiceStep s (round p q date_now executors rounds s).1.1
    stopped : ServiceStep s (stop p q s).1

  -- Any number of steps.
  pub data ServiceSteps (s : SchedulerService p q) : SchedulerService p q → Type 0 where
    no_steps : ServiceSteps s s
    and_then :
        {s' s'' : SchedulerService p q}
        → ServiceSteps s s'
        → ServiceStep s' s''
        → ServiceSteps s s''

  pub ServiceStep-IsSound :
      {s s' : SchedulerService p q} → ServiceStep s s' → IsSound p s.core → IsSound p s'.core
  ServiceStep-IsSound {s} (began support created) v =
      rw (begin_service-core p q support created s) v
  ServiceStep-IsSound {s} (sent command) v = rw (send-core p q command s) v
  ServiceStep-IsSound (posted event w e) v = v
  ServiceStep-IsSound refresh_asked v = v
  ServiceStep-IsSound {s} (outside_changed world) v = world-IsSound p s.core world v
  ServiceStep-IsSound {s} (ran rounds e) v = round-IsSound rounds s v
  ServiceStep-IsSound {s} stopped v = rw (stop-core p q s) v

  pub ServiceSteps-IsSound :
      {s s' : SchedulerService p q} → ServiceSteps s s' → IsSound p s.core → IsSound p s'.core
  ServiceSteps-IsSound no_steps v = v
  ServiceSteps-IsSound (and_then steps step) v =
      ServiceStep-IsSound step (ServiceSteps-IsSound steps v)
