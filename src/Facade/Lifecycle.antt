-- ===== src/Facade/Lifecycle.antt =====
-- `begin` and `end` of scheduler.cpp, on a facade that was allocated.
use esp_scheduler.Prelude.{
  ◌&&◌, ◌||◌, ◌∷◌, if◌then◌else◌, [], ℕ, ltb, Bool, true, false, not, Option, none, some, List,
}
use esp_scheduler.Platform.{Platform}
use esp_scheduler.Freertos.{Queues}
use esp_scheduler.Executor.Task.{TaskSupport}
use esp_scheduler.Core.Job.{SchedulerEvent}
use esp_scheduler.Core.Calls.{cancel_all, active_invocation_count}
use esp_scheduler.Service.Commands.{Reply, cancel_all_command}
use esp_scheduler.Service.{SchedulerService, Created, new_service, begin_service, stop}
use esp_scheduler.Facade.{
  Impl, Runtime, Outside, Allocated, is_background, start_executors, stop_executors,
  drain_manual_events, register_time_sync_listener, unregister_time_sync_listener,
}
use esp_scheduler.Facade.Background.{Exchange, execute_background}

-- What the outside decides of a `begin`: the allocations, the queues and the task, and the id of the
-- listener.
pub record BeginAnswers (p : Platform) : Type 0 where
  pub runtime_allocated : Bool
  pub service_allocated : Bool
  pub created : Created
  pub task_support : TaskSupport
  pub service_world : p.World
  pub event_queue_created : Bool
  pub allocated : Allocated
  pub listener_id : ℕ
  pub outside : Outside p

-- What happens during an `end`: how the service answers and what it does while running jobs finish; and
-- in manual mode the rounds of the wait up to the deadline, each at its time and with the completions
-- that have come in.
pub record EndAnswers (p : Platform) (q : Queues) : Type 0 where
  pub exchange : Exchange p q
  pub service_runs : SchedulerService p q → SchedulerService p q
  pub polls : List (p.DateTime × List SchedulerEvent)
  pub outside : Outside p

module _ (p : Platform) (q : Queues) where
  -- Completions that the executors post, as far as the queue takes them.
  unfoldable pub post_events : List SchedulerEvent → q.Queue SchedulerEvent → q.Queue SchedulerEvent
  post_events [] w = w
  post_events (event ∷ rest) w = post_events rest (q.send SchedulerEvent event w).1

  unfoldable pub events_arrive : List SchedulerEvent → Impl p q → Impl p q
  unfolding post_events
  events_arrive events i = elim i.event_queue [
    | none ↦ i
    | some w ↦ record i { event_queue = some (post_events events w) }
  ]

  -- The wait of `end` in manual mode.
  unfoldable pub wait_for_running :
      Outside p → List (p.DateTime × List SchedulerEvent) → Impl p q → Impl p q
  unfolding events_arrive drain_manual_events active_invocation_count
  wait_for_running outside [] i = i
  wait_for_running outside ((now, events) ∷ rest) i =
      let later =
        wait_for_running outside rest
          (drain_manual_events p q outside now (events_arrive events i)) in
      if ltb 0 (active_invocation_count p i.manual_core) then later else i

  -- The runtime is detached from the event queue, unless jobs may still finish.
  abbrev pub close_runtime : Bool → Option Runtime → Option Runtime
  close_runtime wait none = none
  close_runtime true (some r) = some r
  close_runtime false (some r) = some (record { accepting = false; has_event_queue = false })

  -- `end` in background mode: the service is stopped after the executors. The answers are those of the
  -- commands that it did not serve any more.
  unfoldable pub end_background :
      EndAnswers p q → Bool → SchedulerService p q → Impl p q → List (Reply p) × Impl p q
  unfolding execute_background stop_executors stop
  end_background answers wait s i =
      let s' = (execute_background p q answers.exchange cancel_all_command s).1 in
      let (dropped, stopped) = stop p q (if wait then answers.service_runs s' else s') in
      (dropped, record (stop_executors p q i) { service = none; runtime = none })

  unfoldable pub end_manual : EndAnswers p q → Bool → Impl p q → Impl p q
  unfolding wait_for_running stop_executors cancel_all
  end_manual answers wait i =
      let canceled = record i { manual_core = (cancel_all p i.manual_core).1 } in
      let waited =
        if wait then wait_for_running answers.outside answers.polls canceled else canceled in
      record (stop_executors p q (record waited { runtime = close_runtime wait waited.runtime })) {
        event_queue = none;
      }

  -- The service, where a call goes through it.
  abbrev pub background_service : Impl p q → Option (SchedulerService p q)
  background_service i = if is_background i.config.mode then i.service else none

  unfoldable pub end_by_mode : EndAnswers p q → Bool → Impl p q → List (Reply p) × Impl p q
  unfolding end_background end_manual
  end_by_mode answers wait i = elim (background_service i) [
    | none ↦ ([], end_manual answers wait i)
    | some s ↦ end_background answers wait s i
  ]

  -- `end`: nothing where the facade is not started.
  unfoldable pub end_scheduler : EndAnswers p q → Bool → Impl p q → List (Reply p) × Impl p q
  unfolding unregister_time_sync_listener end_by_mode
  end_scheduler answers wait i =
      let (dropped, ended) =
        end_by_mode answers wait
          (unregister_time_sync_listener p q (record i { draining = true })) in
      if not i.started
      then ([], i)
      else (dropped, record ended { runtime = none; started = false; draining = false })

  -- What `begin` sets up before it starts the executors; `none` is a failure.
  unfoldable pub connect : BeginAnswers p → Impl p q → Option (Impl p q)
  unfolding new_service begin_service
  connect answers i =
      let s =
        new_service p q i.config.service_config i.config.min_valid_epoch_seconds i.context
          answers.service_world in
      let (begun, s') = begin_service p q answers.task_support answers.created s in
      let w = q.create SchedulerEvent i.config.service_config.event_queue_depth in
      let runtime : Option Runtime = some (record { accepting = true; has_event_queue = true }) in
      if is_background i.config.mode
      then (if not answers.service_allocated || not begun
          then none
          else some (record i { service = some s'; runtime = runtime }))
      else if not answers.event_queue_created
      then none
      else some (record i { event_queue = some w; runtime = runtime })

  -- The executors and the listener; where one of them fails, `end(false)`.
  unfoldable pub start_connected : BeginAnswers p → EndAnswers p q → Impl p q → Bool × Impl p q
  unfolding start_executors register_time_sync_listener end_scheduler
  start_connected answers end_answers i =
      let (begun, filled) =
        start_executors p q answers.outside answers.allocated (record i { started = true }) in
      let (listens, registered) = register_time_sync_listener p q answers.listener_id filled in
      if not begun
      then (false, (end_scheduler end_answers false filled).1)
      else if not listens
      then (false, (end_scheduler end_answers false registered).1)
      else (true, record registered { draining = false })

  -- `begin`, with the answers for the `end` that it may call.
  unfoldable pub begin_scheduler : BeginAnswers p → EndAnswers p q → Impl p q → Bool × Impl p q
  unfolding connect start_connected
  begin_scheduler answers end_answers i =
      if i.started
      then (true, i)
      else if not answers.runtime_allocated
      then (false, record i { runtime = none })
      else elim (connect answers i) [
        | none ↦ (
          false,
          (if is_background i.config.mode
              then record i { service = none; runtime = none }
              else record i { event_queue = none; runtime = none }),
        )
        | some i' ↦ start_connected answers end_answers i'
      ]

  -- `running()` and `draining()`.
  unfoldable pub running : Option (Impl p q) → Bool
  running none = false
  running (some i) = i.started && not i.draining

  unfoldable pub is_draining : Option (Impl p q) → Bool
  is_draining none = false
  is_draining (some i) = i.draining
