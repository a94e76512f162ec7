-- ===== src/Facade.antt =====
-- The facade: `ESPScheduler::Impl` of scheduler.cpp, with the configuration of scheduler_config.h. It
-- owns the executors, and in manual mode the core, in background mode the service.
pub mod Background
pub mod Lifecycle
pub mod Requests
pub mod Settings
pub mod Tick
pub mod Stopped
pub mod Sound
pub mod Ready
pub mod Modes
use esp_scheduler.Prelude.{
  ◌+◌, ◌%◌, ◌^◌, ◌&&◌, ◌||◌, ◌∷◌, ◌==◌, if◌then◌else◌, [], ℕ, Bool, true, false, not, Option, none,
  some, List, leb, length, get_or, ℤ,
}
use esp_scheduler.Platform.{Platform}
use esp_scheduler.Freertos.{Queues}
use esp_scheduler.Freertos.Drain.{receive_all, enough}
use esp_scheduler.Core.Array.{SchedulerArray, empty_array, push_back, clear}
use esp_scheduler.Core.Job.{
  JobInvocation, SchedulerEvent, SchedulerResult, success, failure, present, executor_unavailable,
  busy, no_memory,
}
use esp_scheduler.Core.Scheduler.{Core, new_core}
use esp_scheduler.Core.Dispatch.{CoreCall, Executors, handle_event}
use esp_scheduler.Service.{SchedulerServiceConfig, TimeContext, SchedulerService}

pub data SchedulerMode : Type 0 where
  manual background : SchedulerMode

pub data AsyncExecutorBackend : Type 0 where
  worker_pool_backend esp_worker_backend : AsyncExecutorBackend

-- `espWorker` is set or null.
pub record SchedulerConfig : Type 0 where
  pub mode : SchedulerMode
  pub min_valid_epoch_seconds : ℤ
  pub default_async_backend : AsyncExecutorBackend
  pub esp_worker : Bool
  pub service_config : SchedulerServiceConfig

-- A pointer to an executor: one of the facade's own, or a registered one by its address.
pub data ExecutorRef : Type 0 where
  worker_pool_executor esp_worker_adapter dedicated_task_executor : ExecutorRef
  external_executor : ℕ → ExecutorRef

-- `SchedulerExecutorRuntime`: `accepting`, and whether `eventQueue` is set.
pub record Runtime : Type 0 where
  pub accepting : Bool
  pub has_event_queue : Bool

pub record Impl (p : Platform) (q : Queues) : Type 0 where
  pub config : SchedulerConfig
  pub manual_core : Core p
  pub service : Option (SchedulerService p q)
  pub inline_dispatch : Bool
  pub worker_pool : Bool
  pub esp_worker : Bool
  pub dedicated_task : Bool
  pub external_executors : SchedulerArray ExecutorRef
  pub executors : SchedulerArray ExecutorRef
  pub runtime : Option Runtime
  pub event_queue : Option (q.Queue SchedulerEvent)
  pub context : TimeContext p
  pub ntp_sync_listener_id : ℕ
  pub started : Bool
  pub draining : Bool

-- What lies behind the executors: what a callback that runs inline calls, whether an executor takes an
-- invocation, and whether it begins.
pub record Outside (p : Platform) : Type 0 where
  pub callback_calls : JobInvocation → p.World → List (CoreCall p) × p.World
  pub submit : ExecutorRef → JobInvocation → p.World → Bool × p.World
  pub begins : ExecutorRef → Bool

-- Which of the executors' objects are allocated in `startExecutors`.
pub record Allocated : Type 0 where
  pub inline_allocated : Bool
  pub dedicated_allocated : Bool
  pub backend_allocated : Bool

abbrev pub is_background : SchedulerMode → Bool
is_background manual = false
is_background background = true

abbrev pub is_worker_pool : AsyncExecutorBackend → Bool
is_worker_pool worker_pool_backend = true
is_worker_pool esp_worker_backend = false

module _ (p : Platform) (q : Queues) where
  open p use {DateTime}

  abbrev pub fresh_context : TimeContext p
  fresh_context = record {
    refresh_requested = false;
    last_observed = p.zero_time;
    has_last_observed = false;
  }

  -- The constructor.
  unfoldable pub new_impl : SchedulerConfig → p.World → Impl p q
  unfolding new_core
  new_impl config world = record {
    config = config;
    manual_core = new_core p config.min_valid_epoch_seconds world;
    service = none;
    inline_dispatch = false;
    worker_pool = false;
    esp_worker = false;
    dedicated_task = false;
    external_executors = empty_array;
    executors = empty_array;
    runtime = none;
    event_queue = none;
    context = fresh_context;
    ntp_sync_listener_id = 0;
    started = false;
    draining = false;
  }

  unfoldable pub executor_for : Impl p q → ℕ → Option ExecutorRef
  executor_for i executor_id =
      if leb (length i.executors.items) executor_id
      then none
      else some (get_or i.executors.items executor_id worker_pool_executor)

  -- `Impl` as the core's `IExecutorResolver`.
  unfoldable pub resolver : Outside p → Impl p q → Executors p
  unfolding executor_for
  resolver outside i = record {
    inline_executor = i.inline_dispatch;
    executor_for = λ id. present (executor_for i id);
    callback_calls = outside.callback_calls;
    submit = λ id invocation world. elim (executor_for i id) [
      | none ↦ (false, world)
      | some executor ↦ outside.submit executor invocation world
    ];
  }

  -- `executors.pushBack(executor)`, with the allocator of the manual core.
  unfoldable pub push_executor : ExecutorRef → Impl p q → Bool × Impl p q
  push_executor executor i =
      let pushed = push_back p p.size_of_pointer executor i.executors i.manual_core.world in
      (
        pushed.ok,
        record i {
          executors = pushed.array;
          manual_core = record (i.manual_core) { world = pushed.world };
        },
      )

  -- One push after the other, up to the first that has no memory.
  unfoldable pub push_executors : List ExecutorRef → Impl p q → Bool × Impl p q
  unfolding push_executor
  push_executors [] i = (true, i)
  push_executors (executor ∷ rest) i =
      let (pushed, i') = push_executor executor i in
      let later = push_executors rest i' in if pushed then later else (false, i')

  -- `begin` of each, up to the first that answers false.
  unfoldable pub begin_all : Outside p → List ExecutorRef → Bool
  begin_all outside [] = true
  begin_all outside (executor ∷ rest) = outside.begins executor && begin_all outside rest

  -- The inline executor's `begin` answers true.
  unfoldable pub start_executors : Outside p → Allocated → Impl p q → Bool × Impl p q
  unfolding push_executors begin_all
  start_executors outside allocated i =
      let pool = is_worker_pool i.config.default_async_backend in
      let made = record i {
        inline_dispatch = allocated.inline_allocated;
        dedicated_task = allocated.dedicated_allocated;
      } in
      let backed = record made {
        worker_pool = if pool then allocated.backend_allocated else i.worker_pool;
        esp_worker = if pool then i.esp_worker else allocated.backend_allocated;
      } in
      let own = if pool then worker_pool_executor else esp_worker_adapter in
      let (pushed, filled) =
        push_executors (own ∷ dedicated_task_executor ∷ i.external_executors.items)
          (record backed { executors = clear i.executors }) in
      if not allocated.inline_allocated || not allocated.dedicated_allocated
      then (false, made)
      else if not pool && not i.config.esp_worker
      then (false, made)
      else if not allocated.backend_allocated
      then (false, backed)
      else if not pushed
      then (false, filled)
      else (begin_all outside filled.executors.items, filled)

  unfoldable pub stop_executors : Impl p q → Impl p q
  stop_executors i = record i {
    executors = clear i.executors;
    inline_dispatch = false;
    worker_pool = false;
    esp_worker = false;
    dedicated_task = false;
  }

  unfoldable pub drain_manual_events : Outside p → DateTime → Impl p q → Impl p q
  unfolding resolver handle_event
  drain_manual_events outside now i = elim i.event_queue [
    | none ↦ i
    | some w ↦
        let (w', c) =
          receive_all q (λ (event : SchedulerEvent). handle_event p (resolver outside i) event now)
            (enough q w) w i.manual_core in
        record i { event_queue = some w'; manual_core = c }
  ]

  -- The flag is one variable, which the service has by reference.
  abbrev pub flag_service : Option (SchedulerService p q) → Option (SchedulerService p q)
  flag_service none = none
  flag_service (some s) =
      some (record s { context = record (s.context) { refresh_requested = true } })

  unfoldable pub request_time_context_refresh : Impl p q → Impl p q
  request_time_context_refresh i = record i {
    context = record (i.context) { refresh_requested = true };
    service = flag_service i.service;
  }

  unfoldable pub refresh_time_context_if_needed : DateTime → Impl p q → Bool × Impl p q
  refresh_time_context_if_needed now i =
      let today = p.start_of_day_local now in
      let requested = i.context.refresh_requested in
      let context : TimeContext p = record (i.context) { refresh_requested = false } in
      if not i.context.has_last_observed
      then (
        requested,
        record i { context = record context { last_observed = today; has_last_observed = true } },
      )
      else if not (p.is_equal today i.context.last_observed)
      then (true, record i { context = record context { last_observed = today } })
      else (requested, record i { context = context })

  -- The id that `addNtpSyncListener` answers; 0 is a failure.
  unfoldable pub register_time_sync_listener : ℕ → Impl p q → Bool × Impl p q
  register_time_sync_listener listener_id i =
      (not (listener_id == 0), record i { ntp_sync_listener_id = listener_id })

  unfoldable pub unregister_time_sync_listener : Impl p q → Impl p q
  unregister_time_sync_listener i = record i { ntp_sync_listener_id = 0; context = fresh_context }

  -- `registerExecutor`, where the facade was allocated; `none` is a null pointer.
  unfoldable pub register_executor : Option ExecutorRef → Impl p q → SchedulerResult ℕ × Impl p q
  register_executor none i = (failure executor_unavailable, i)
  register_executor (some executor) i =
      let executor_id = (2 + length i.external_executors.items) % 2 ^ 8 in
      let pushed =
        push_back p p.size_of_pointer executor i.external_executors i.manual_core.world in
      let i' = record i {
        external_executors = pushed.array;
        manual_core = record (i.manual_core) { world = pushed.world };
      } in
      if i.started
      then (failure busy, i)
      else if not pushed.ok
      then (failure no_memory, i')
      else (success executor_id, i')
