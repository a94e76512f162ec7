-- ===== src/Facade/Ready.antt =====
-- What a facade of scheduler.cpp holds after `begin` and after `end`, where something fails too.
pub mod Reach
use esp_scheduler.Prelude.{
  ◌≡◌, ◌≢◌, ◌∷◌, [], if◌then◌else◌, Bool, true, false, none, some, List, arith, inl, inr,
  Option-cases,
}
use esp_scheduler.Platform.{Platform}
use esp_scheduler.Freertos.{Queues}
use esp_scheduler.Core.Array.{clear}
use esp_scheduler.Core.Job.{SchedulerEvent, present}
use esp_scheduler.Core.Calls.{cancel_all}
use esp_scheduler.Facade.{
  Impl, Outside, Allocated, ExecutorRef, is_background, is_worker_pool, worker_pool_executor,
  esp_worker_adapter, dedicated_task_executor, push_executor, push_executors, start_executors,
  stop_executors, drain_manual_events, register_time_sync_listener, unregister_time_sync_listener,
}
use esp_scheduler.Facade.Lifecycle.{
  BeginAnswers, EndAnswers, events_arrive, wait_for_running, end_background, end_manual,
  background_service, end_by_mode, end_scheduler, connect, start_connected, begin_scheduler,
}

module _ (p : Platform) (q : Queues) where
  open p use {DateTime}

  -- Nothing is held: no service, queue, runtime or listener, and none of the executors' objects.
  pub record IsStopped (i : Impl p q) : Type 0 where
    pub not_started : i.started ≡ false
    pub not_draining : i.draining ≡ false
    pub no_service : i.service ≡ none
    pub no_event_queue : i.event_queue ≡ none
    pub no_runtime : i.runtime ≡ none
    pub no_executors : i.executors.items ≡ []
    pub no_inline_dispatch : i.inline_dispatch ≡ false
    pub no_worker_pool : i.worker_pool ≡ false
    pub no_esp_worker : i.esp_worker ≡ false
    pub no_dedicated_task : i.dedicated_task ≡ false
    pub no_listener : i.ntp_sync_listener_id ≡ 0

  -- In background mode there is a service, in manual mode an event queue, and never both.
  pub record HoldsMode (i : Impl p q) : Type 0 where
    pub in_manual :
        is_background i.config.mode ≡ false → (i.service ≡ none) × (present i.event_queue ≡ true)
    pub in_background :
        is_background i.config.mode ≡ true → (present i.service ≡ true) × (i.event_queue ≡ none)

  pub record IsUp (i : Impl p q) : Type 0 where
    pub held : HoldsMode i
    pub has_runtime : present i.runtime ≡ true
    pub has_listener : i.ntp_sync_listener_id ≢ 0

  pub record IsReady (i : Impl p q) : Type 0 where
    pub is_started : i.started ≡ true
    pub is_not_draining : i.draining ≡ false
    pub is_up : IsUp i

  -- What a wait in manual mode leaves alone.
  pub record Kept (i j : Impl p q) : Type 0 where
    pub same_config : j.config ≡ i.config
    pub same_service : j.service ≡ i.service
    pub same_listener : j.ntp_sync_listener_id ≡ i.ntp_sync_listener_id

  drain_manual_events-Kept :
      (outside : Outside p) (now : DateTime) (i : Impl p q)
      → Kept i (drain_manual_events p q outside now i)
  unfolding drain_manual_events
  drain_manual_events-Kept outside now i = elim (Option-cases i.event_queue) [
    | inl absent ↦ ground arith
    | inr (w, there) ↦ ground arith
  ]

  events_arrive-Kept :
      (events : List SchedulerEvent) (i : Impl p q) → Kept i (events_arrive p q events i)
  unfolding events_arrive
  events_arrive-Kept events i = elim (Option-cases i.event_queue) [
    | inl absent ↦ ground arith
    | inr (w, there) ↦ ground arith
  ]

  wait_for_running-Kept :
      (outside : Outside p) (polls : List (DateTime × List SchedulerEvent)) (i : Impl p q)
      → Kept i (wait_for_running p q outside polls i)
  unfolding wait_for_running
  wait_for_running-Kept outside [] i = ground arith
  wait_for_running-Kept outside ((now, events) ∷ rest) i =
      let arrived = events_arrive p q events i in
      let drained = drain_manual_events p q outside now arrived in
      ground (
        arith,
        events_arrive-Kept events i,
        drain_manual_events-Kept outside now arrived,
        wait_for_running-Kept outside rest drained,
      )

  -- No executor is in the list, and none of the facade's own is there.
  record HasNoExecutors (i : Impl p q) : Type 0 where
    list_empty : i.executors.items ≡ []
    inline_gone : i.inline_dispatch ≡ false
    pool_gone : i.worker_pool ≡ false
    esp_worker_gone : i.esp_worker ≡ false
    dedicated_gone : i.dedicated_task ≡ false

  end_manual-Kept :
      (answers : EndAnswers p q) (wait : Bool) (i : Impl p q)
      → Kept i (end_manual p q answers wait i)
        × ((end_manual p q answers wait i).event_queue ≡ none)
        × HasNoExecutors (end_manual p q answers wait i)
  unfolding end_manual stop_executors clear
  end_manual-Kept answers wait i =
      let canceled = record i { manual_core = (cancel_all p i.manual_core).1 } in
      let kept = wait_for_running-Kept answers.outside answers.polls canceled in
      ground (arith, kept)

  -- What is gone once the mode's own part is stopped.
  record Emptied (i j : Impl p q) : Type 0 where
    service_gone : j.service ≡ none
    queue_gone : j.event_queue ≡ none
    executors_gone : HasNoExecutors j
    listener_kept : j.ntp_sync_listener_id ≡ i.ntp_sync_listener_id

  end_by_mode-Emptied :
      (answers : EndAnswers p q) (wait : Bool) (i : Impl p q)
      → HoldsMode i
      → Emptied i (end_by_mode p q answers wait i).1
  unfolding end_by_mode end_background stop_executors clear
  end_by_mode-Emptied answers wait i h = elim (Option-cases (background_service p q i)) [
    | inl absent ↦ ground (arith, end_manual-Kept answers wait i)
    | inr (s, there) ↦ ground arith
  ]

  -- `end` of a started facade leaves it with nothing held.
  pub end_scheduler-IsStopped :
      (answers : EndAnswers p q) (wait : Bool) (i : Impl p q)
      → i.started ≡ true
      → HoldsMode i
      → IsStopped (end_scheduler p q answers wait i).1
  unfolding end_scheduler unregister_time_sync_listener
  end_scheduler-IsStopped answers wait i on h =
      let silent = unregister_time_sync_listener p q (record i { draining = true }) in
      let ended =
        end_by_mode-Emptied answers wait silent
          (record { in_manual = h.in_manual; in_background = h.in_background }) in
      ground (arith, ended)

  -- What the executors' start leaves alone.
  record Backed (i j : Impl p q) : Type 0 where
    backed_kept : Kept i j
    started_kept : j.started ≡ i.started
    draining_kept : j.draining ≡ i.draining
    queue_kept : j.event_queue ≡ i.event_queue
    runtime_kept : j.runtime ≡ i.runtime

  push_executors-Backed :
      (es : List ExecutorRef) (i : Impl p q) → Backed i (push_executors p q es i).1
  unfolding push_executors push_executor
  push_executors-Backed [] i = ground arith
  push_executors-Backed (e ∷ es) i =
      let i' = (push_executor p q e i).1 in ground (arith, push_executors-Backed es i')

  start_executors-Backed :
      (outside : Outside p) (allocated : Allocated) (i : Impl p q)
      → Backed i (start_executors p q outside allocated i).1
  unfolding start_executors
  start_executors-Backed outside allocated i =
      let pool = is_worker_pool i.config.default_async_backend in
      let backed = record i {
        inline_dispatch = allocated.inline_allocated;
        dedicated_task = allocated.dedicated_allocated;
        worker_pool = if pool then allocated.backend_allocated else i.worker_pool;
        esp_worker = if pool then i.esp_worker else allocated.backend_allocated;
        executors = clear i.executors;
      } in
      let own = if pool then worker_pool_executor else esp_worker_adapter in
      ground (
        arith,
        push_executors-Backed (own ∷ dedicated_task_executor ∷ i.external_executors.items) backed,
      )

  HoldsMode-Backed : (i j : Impl p q) → Backed i j → HoldsMode i → HoldsMode j
  HoldsMode-Backed i j b h = ground arith

  connect-HoldsMode :
      (answers : BeginAnswers p) (i i' : Impl p q)
      → connect p q answers i ≡ some i'
      → IsStopped i
      → HoldsMode i' × (present i'.runtime ≡ true)
  unfolding connect
  connect-HoldsMode answers i i' e s = ground arith

  start_connected-IsReady :
      (answers : BeginAnswers p) (end_answers : EndAnswers p q) (i : Impl p q)
      → HoldsMode i
      → present i.runtime ≡ true
      → let (begun, i') = start_connected p q answers end_answers i in
        (begun ≡ true → IsReady i') × (begun ≡ false → IsStopped i')
  unfolding start_connected register_time_sync_listener
  start_connected-IsReady answers end_answers i h r =
      let starting = record i { started = true } in
      let held : HoldsMode starting = record {
        in_manual = h.in_manual;
        in_background = h.in_background;
      } in
      let filled = (start_executors p q answers.outside answers.allocated starting).1 in
      let registered = (register_time_sync_listener p q answers.listener_id filled).1 in
      let b = start_executors-Backed answers.outside answers.allocated starting in
      let held' = HoldsMode-Backed starting filled b held in
      let held'' : HoldsMode registered = record {
        in_manual = held'.in_manual;
        in_background = held'.in_background;
      } in
      ground (
        arith,
        b,
        end_scheduler-IsStopped end_answers false filled b.started_kept held',
        end_scheduler-IsStopped end_answers false registered b.started_kept held'',
      )

  -- `begin` of a facade that holds nothing either succeeds, and the facade is started, not draining, holds
  -- what its mode needs and has a runtime and a listener; or it answers false and the facade
  -- holds nothing again, whatever failed.
  pub begin_scheduler-IsReady :
      (answers : BeginAnswers p) (end_answers : EndAnswers p q) (i : Impl p q)
      → IsStopped i
      → let (begun, i') = begin_scheduler p q answers end_answers i in
        (begun ≡ true → IsReady i') × (begun ≡ false → IsStopped i')
  unfolding begin_scheduler
  begin_scheduler-IsReady answers end_answers i s = elim (Option-cases (connect p q answers i)) [
    | inl failed ↦ ground (arith, failed)
    | inr (i', connected) ↦
        let (held, some_runtime) = connect-HoldsMode answers i i' connected s in
        ground (arith, connected, start_connected-IsReady answers end_answers i' held some_runtime)
  ]
