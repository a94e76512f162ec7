-- ===== src/Compat.antt =====
-- The interface of version 1, compat/v1_compat.cpp and .h, over the facade. The calls of a wrapper go
-- through the service with one set of answers from outside, `exchange`, for each of its public calls.
pub mod Queries
pub mod Deinit
use esp_scheduler.Prelude.{
  ◌+◌, ◌++◌, ◌∷◌, ◌==◌, if◌then◌else◌, [], ℕ, Bool, true, false, not, Option, none, some, List, ℤ,
  pos,
}
use esp_scheduler.Platform.{Platform}
use esp_scheduler.Freertos.{Queues}
use esp_scheduler.Schedule.Spec.{ScheduleSpec}
use esp_scheduler.Core.Job.{
  JobOptions, JobInfo, DedicatedTaskOptions, DispatchPolicy, CString, SchedulerResult, success,
  failure, present, inline, async, skip_if_running, default_task_options,
}
use esp_scheduler.Service.{SchedulerServiceConfig}
use esp_scheduler.Service.Commands.{Reply, number, done, informed}
use esp_scheduler.Facade.{
  SchedulerConfig, background, worker_pool_backend, ExecutorRef, esp_worker_adapter, Impl, new_impl,
  register_executor,
}
use esp_scheduler.Facade.Background.{Exchange}
use esp_scheduler.Facade.Lifecycle.{
  BeginAnswers, EndAnswers, begin_scheduler, end_scheduler, running,
}
use esp_scheduler.Facade.Requests.{
  EspScheduler, add_job_raw, add_job_function, add_job_once_utc, add_function_once_utc,
  cancel_job_request, pause_job_request, resume_job_request, cancel_all_request,
  get_job_info_request,
}
use esp_scheduler.Facade.Settings.{default_worker_executor, default_dedicated_executor}

pub data SchedulerJobMode : Type 0 where
  inline_mode worker_task : SchedulerJobMode

pub record SchedulerTaskConfig : Type 0 where
  pub name : Option CString
  pub stack_size : ℕ
  pub priority : ℕ
  pub core_id : ℤ
  pub use_psram_stack : Bool

pub record SchedulerV1JobInfo (p : Platform) : Type 0 where
  pub id : ℕ
  pub enabled : Bool
  pub mode : SchedulerJobMode
  pub schedule : ScheduleSpec p
  pub next_run_utc : p.DateTime

-- `worker_executor_id` is `none` where the source has -1.
pub record EspSchedulerV1Compat (p : Platform) (q : Queues) : Type 0 where
  pub tracked_job_ids : List ℕ
  pub dedicated_task_scratch : DedicatedTaskOptions
  pub worker_executor_id : Option ℕ
  pub scheduler : EspScheduler p q

-- `SchedulerConfig{}`: the wrapper always runs in background mode.
abbrev pub compat_scheduler_config : SchedulerConfig
compat_scheduler_config = record {
  mode = background;
  min_valid_epoch_seconds = pos 1577836800;
  default_async_backend = worker_pool_backend;
  esp_worker = false;
  service_config = record {
    command_queue_depth = 16;
    event_queue_depth = 16;
    task_stack_size = 4096;
    use_psram_stack = false;
    control_timeout_ms = 2000;
  };
}

abbrev pub mode_of : DispatchPolicy → SchedulerJobMode
mode_of inline = inline_mode
mode_of async = worker_task

module _ (p : Platform) (q : Queues) where
  open p use {DateTime}

  unfoldable pub make_dedicated_options : Option SchedulerTaskConfig → DedicatedTaskOptions
  make_dedicated_options none = default_task_options p
  make_dedicated_options (some task) = record {
    name = task.name;
    stack_size = task.stack_size;
    priority = task.priority;
    core_id = task.core_id;
    use_psram_stack = task.use_psram_stack;
  }

  -- `result.ok() ? result.value : 0`
  abbrev pub id_or_zero : Reply p → ℕ
  id_or_zero (number (success id)) = id
  id_or_zero _ = 0

  abbrev pub is_ok : Reply p → Bool
  is_ok (number (success n)) = true
  is_ok (done (success t)) = true
  is_ok (informed (success t) info) = true
  is_ok _ = false

  -- The constructor, with the adapter of a worker or without, on a facade that may not have been allocated.
  unfoldable pub new_compat :
      Option ExecutorRef
      → BeginAnswers p
      → EndAnswers p q
      → EspScheduler p q
      → EspSchedulerV1Compat p q
  unfolding register_executor begin_scheduler
  new_compat adapter answers end_answers none = record {
    tracked_job_ids = [];
    dedicated_task_scratch = default_task_options p;
    worker_executor_id = none;
    scheduler = none;
  }
  new_compat adapter answers end_answers (some i) =
      let (registered, i') = register_executor p q adapter i in
      let id : Option ℕ = elim registered [ success id ↦ some id | failure e ↦ none ] in
      let with_worker = present adapter in
      record {
        tracked_job_ids = [];
        dedicated_task_scratch = default_task_options p;
        worker_executor_id = if with_worker then id else none;
        scheduler =
            some (begin_scheduler p q answers end_answers (if with_worker then i' else i)).1;
      }

  unfoldable pub deinit : EndAnswers p q → EspSchedulerV1Compat p q → EspSchedulerV1Compat p q
  unfolding end_scheduler
  deinit answers w =
      let ended : EspScheduler p q = elim w.scheduler [
        | none ↦ none
        | some i ↦ some (end_scheduler p q answers true i).1
      ] in
      record w { tracked_job_ids = []; scheduler = ended }

  unfoldable pub is_initialized : EspSchedulerV1Compat p q → Bool
  unfolding running
  is_initialized w = running p q w.scheduler

  -- The options of a job, and the wrapper: the task's options are written to it, and the job's point there.
  unfoldable pub job_options_for_mode :
      SchedulerJobMode
      → Option SchedulerTaskConfig
      → EspSchedulerV1Compat p q
      → JobOptions × EspSchedulerV1Compat p q
  unfolding make_dedicated_options default_worker_executor
  job_options_for_mode mode task w =
      let plain : JobOptions = record {
        dispatch = inline;
        overlap = skip_if_running;
        executor_id = 0;
        start_paused = false;
        name = none;
        dedicated_task = none;
      } in
      let worker : ℕ = elim w.worker_executor_id [
        | some id ↦ id
        | none ↦ default_worker_executor p q w.scheduler
      ] in
      elim mode [
        | inline_mode ↦ (plain, w)
        | worker_task ↦ elim task [
          | some cfg ↦ (
            record plain {
              dispatch = async;
              executor_id = default_dedicated_executor p q;
              dedicated_task = some (make_dedicated_options (some cfg));
            },
            record w { dedicated_task_scratch = make_dedicated_options (some cfg) },
          )
          | none ↦ (record plain { dispatch = async; executor_id = worker }, w)
        ]
      ]

  unfoldable pub track_job : ℕ → EspSchedulerV1Compat p q → EspSchedulerV1Compat p q
  track_job job_id w =
      if job_id == 0 then w else record w { tracked_job_ids = w.tracked_job_ids ++ (job_id ∷ []) }

  -- What every `addJob` and `addJobOnceUtc` does with the facade's answer.
  unfoldable pub added :
      Reply p × EspScheduler p q → EspSchedulerV1Compat p q → ℕ × EspSchedulerV1Compat p q
  unfolding track_job
  added (reply, s) w = (id_or_zero reply, track_job (id_or_zero reply) (record w { scheduler = s }))

  unfoldable pub add_job_v1 :
      Exchange p q
      → DateTime
      → ScheduleSpec p
      → SchedulerJobMode
      → Option ℕ
      → ℕ
      → Option SchedulerTaskConfig
      → EspSchedulerV1Compat p q
      → ℕ × EspSchedulerV1Compat p q
  unfolding add_job_raw job_options_for_mode added
  add_job_v1 exchange now schedule mode callback user_data task w =
      let (options, w') = job_options_for_mode mode task w in
      added (add_job_raw p q exchange now schedule options callback user_data w.scheduler) w'

  unfoldable pub add_function_v1 :
      Exchange p q
      → DateTime
      → ScheduleSpec p
      → SchedulerJobMode
      → Option ℕ
      → ℕ
      → Option SchedulerTaskConfig
      → EspSchedulerV1Compat p q
      → ℕ × EspSchedulerV1Compat p q
  unfolding add_job_function job_options_for_mode added
  add_function_v1 exchange now schedule mode callback user_data task w =
      let (options, w') = job_options_for_mode mode task w in
      added (add_job_function p q exchange now schedule options callback user_data w.scheduler) w'

  unfoldable pub add_job_once_utc_v1 :
      Exchange p q
      → DateTime
      → DateTime
      → SchedulerJobMode
      → Option ℕ
      → ℕ
      → Option SchedulerTaskConfig
      → EspSchedulerV1Compat p q
      → ℕ × EspSchedulerV1Compat p q
  unfolding add_job_once_utc job_options_for_mode added
  add_job_once_utc_v1 exchange now when_utc mode callback user_data task w =
      let (options, w') = job_options_for_mode mode task w in
      added (add_job_once_utc p q exchange now when_utc options callback user_data w.scheduler) w'

  unfoldable pub add_function_once_utc_v1 :
      Exchange p q
      → DateTime
      → DateTime
      → SchedulerJobMode
      → Option ℕ
      → ℕ
      → Option SchedulerTaskConfig
      → EspSchedulerV1Compat p q
      → ℕ × EspSchedulerV1Compat p q
  unfolding add_function_once_utc job_options_for_mode added
  add_function_once_utc_v1 exchange now when_utc mode callback user_data task w =
      let (options, w') = job_options_for_mode mode task w in
      added (add_function_once_utc p q exchange now when_utc options callback user_data w.scheduler)
        w'

  -- `cancelJob`, `pauseJob` and `resumeJob` answer whether the facade's call succeeded.
  abbrev pub succeeded :
      EspSchedulerV1Compat p q → Reply p × EspScheduler p q → Bool × EspSchedulerV1Compat p q
  succeeded w (reply, s) = (is_ok reply, record w { scheduler = s })

  unfoldable pub cancel_job_v1 :
      Exchange p q → ℕ → EspSchedulerV1Compat p q → Bool × EspSchedulerV1Compat p q
  unfolding cancel_job_request
  cancel_job_v1 exchange job_id w = succeeded w (cancel_job_request p q exchange job_id w.scheduler)

  unfoldable pub pause_job_v1 :
      Exchange p q → ℕ → EspSchedulerV1Compat p q → Bool × EspSchedulerV1Compat p q
  unfolding pause_job_request
  pause_job_v1 exchange job_id w = succeeded w (pause_job_request p q exchange job_id w.scheduler)

  unfoldable pub resume_job_v1 :
      Exchange p q → DateTime → ℕ → EspSchedulerV1Compat p q → Bool × EspSchedulerV1Compat p q
  unfolding resume_job_request
  resume_job_v1 exchange now job_id w =
      succeeded w (resume_job_request p q exchange now job_id w.scheduler)

  unfoldable pub cancel_all_v1 : Exchange p q → EspSchedulerV1Compat p q → EspSchedulerV1Compat p q
  unfolding cancel_all_request
  cancel_all_v1 exchange w = record w {
    tracked_job_ids = [];
    scheduler = (cancel_all_request p q exchange w.scheduler).1;
  }
