-- ===== src/Compat/Deinit.antt =====
-- What a wrapper of compat/v1_compat.cpp answers once it has been deinitialised.
use esp_scheduler.Prelude.{
  ◌≡◌, refl, arith, inl, inr, Option-cases, [], ℕ, Bool, true, false, Option, none, some,
}
use esp_scheduler.Platform.{Platform}
use esp_scheduler.Freertos.{Queues}
use esp_scheduler.Schedule.Spec.{ScheduleSpec, once_utc}
use esp_scheduler.Core.Job.{
  JobOptions, DedicatedTaskOptions, failure, invalid_schedule, not_initialized,
}
use esp_scheduler.Service.Commands.{Reply, number}
use esp_scheduler.Facade.{Impl}
use esp_scheduler.Facade.Background.{Exchange}
use esp_scheduler.Facade.Lifecycle.{EndAnswers, end_scheduler, running}
use esp_scheduler.Facade.Requests.{
  EspScheduler, add_job_raw, add_job_function, add_job_once_utc, add_function_once_utc,
  cancel_all_request, cancel_job_request, pause_job_request, resume_job_request,
}
use esp_scheduler.Facade.Stopped.{started, when_running-refused}
use esp_scheduler.Facade.Requests.{add_job_impl}
use esp_scheduler.Compat.{
  id_or_zero, job_options_for_mode, make_dedicated_options, inline_mode, worker_task,
  add_function_v1, add_job_once_utc_v1, add_function_once_utc_v1, cancel_all_v1,
  EspSchedulerV1Compat, SchedulerJobMode, SchedulerTaskConfig, deinit, is_initialized, add_job_v1,
  added, track_job, cancel_job_v1, pause_job_v1, resume_job_v1,
}
use esp_scheduler.Compat.Queries.{active_ids, prune_tracked_jobs, info_at, get_job_info_v1}

module _ (p : Platform) (q : Queues) where
  open p use {DateTime}

  end_scheduler-started :
      (answers : EndAnswers p q) (wait : Bool) (i : Impl p q)
      → (end_scheduler p q answers wait i).1.started ≡ false
  unfolding end_scheduler
  end_scheduler-started answers wait i = ground arith

  not_running : (s : EspScheduler p q) → started p q s ≡ false → running p q s ≡ false
  unfolding running
  not_running none h = refl
  not_running (some i) h = ground arith

  deinit-started :
      (answers : EndAnswers p q) (w : EspSchedulerV1Compat p q)
      → started p q (deinit p q answers w).scheduler ≡ false
  unfolding deinit
  deinit-started answers w = elim (Option-cases w.scheduler) [
    | inl absent ↦ rw (absent, deinit) refl
    | inr (i, there) ↦ rw (there, deinit) (end_scheduler-started answers true i)
  ]

  add_job_raw-refused :
      (exchange : Exchange p q) (now : DateTime) (schedule : ScheduleSpec p) (options : JobOptions)
      (callback : Option ℕ) (user_data : ℕ) (s : EspScheduler p q)
      → running p q s ≡ false
      → (reply : Reply p) × (add_job_raw p q exchange now schedule options callback user_data s
          ≡ (reply, s))
        × (id_or_zero p q reply ≡ 0)
  unfolding add_job_raw add_job_impl
  add_job_raw-refused exchange now schedule options none user_data s h =
      (number (failure invalid_schedule), refl, refl)
  add_job_raw-refused exchange now schedule options (some callback) user_data s h =
      (number (failure not_initialized), when_running-refused p q _ _ s h, refl)

  add_job_function-refused :
      (exchange : Exchange p q) (now : DateTime) (schedule : ScheduleSpec p) (options : JobOptions)
      (callback : Option ℕ) (user_data : ℕ) (s : EspScheduler p q)
      → running p q s ≡ false
      → (reply : Reply p) × (add_job_function p q exchange now schedule options callback user_data s
          ≡ (reply, s))
        × (id_or_zero p q reply ≡ 0)
  unfolding add_job_function add_job_impl
  add_job_function-refused exchange now schedule options none user_data s h =
      (number (failure invalid_schedule), refl, refl)
  add_job_function-refused exchange now schedule options (some callback) user_data s h =
      (number (failure not_initialized), when_running-refused p q _ _ s h, refl)

  -- What an `addJob` writes down of the task's options before it is refused.
  abbrev pub scratched :
      EspSchedulerV1Compat p q
      → SchedulerJobMode
      → Option SchedulerTaskConfig
      → EspSchedulerV1Compat p q
  scratched w inline_mode task = w
  scratched w worker_task none = w
  scratched w worker_task (some task) = record w {
    dedicated_task_scratch = record {
      name = task.name;
      stack_size = task.stack_size;
      priority = task.priority;
      core_id = task.core_id;
      use_psram_stack = task.use_psram_stack;
    };
  }

  job_options_for_mode-scratched :
      (w : EspSchedulerV1Compat p q) (mode : SchedulerJobMode) (task : Option SchedulerTaskConfig)
      → (job_options_for_mode p q mode task w).1 ≡ scratched w mode task
  unfolding job_options_for_mode make_dedicated_options
  job_options_for_mode-scratched w inline_mode task = refl
  job_options_for_mode-scratched w worker_task none = refl
  job_options_for_mode-scratched w worker_task (some task) = refl

  scratched-scheduler :
      (w : EspSchedulerV1Compat p q) (mode : SchedulerJobMode) (task : Option SchedulerTaskConfig)
      → (scratched w mode task).scheduler ≡ w.scheduler
  scratched-scheduler w inline_mode task = refl
  scratched-scheduler w worker_task none = refl
  scratched-scheduler w worker_task (some task) = refl

  -- What an `addJob` comes to whose facade refuses it.
  added-refused :
      (answer : Reply p × EspScheduler p q) (w' v : EspSchedulerV1Compat p q)
      → (reply : Reply p) × (answer ≡ (reply, v.scheduler)) × (id_or_zero p q reply ≡ 0)
      → w' ≡ v
      → added p q answer w' ≡ (0, v)
  unfolding added track_job
  added-refused answer w' v (reply, same, zero_id) e = rw e (rw same (rw zero_id refl))

  -- The answers of a wrapper over a facade that is not started.
  module _ (w : EspSchedulerV1Compat p q) (off : started p q w.scheduler ≡ false) where
    add_job_v1-refused :
        (exchange : Exchange p q) (now : DateTime) (schedule : ScheduleSpec p)
        (mode : SchedulerJobMode) (callback : Option ℕ) (user_data : ℕ)
        (task : Option SchedulerTaskConfig)
        → add_job_v1 p q exchange now schedule mode callback user_data task w
          ≡ (0, scratched w mode task)
    unfolding add_job_v1
    add_job_v1-refused exchange now schedule mode callback user_data task =
        let (options, w') = job_options_for_mode p q mode task w in
        added-refused (add_job_raw p q exchange now schedule options callback user_data w.scheduler)
          w' (scratched w mode task)
          (rw (scratched-scheduler w mode task) (
            add_job_raw-refused exchange now schedule options callback user_data w.scheduler
              (not_running w.scheduler off)))
          (job_options_for_mode-scratched w mode task)

    add_function_v1-refused :
        (exchange : Exchange p q) (now : DateTime) (schedule : ScheduleSpec p)
        (mode : SchedulerJobMode) (callback : Option ℕ) (user_data : ℕ)
        (task : Option SchedulerTaskConfig)
        → add_function_v1 p q exchange now schedule mode callback user_data task w
          ≡ (0, scratched w mode task)
    unfolding add_function_v1
    add_function_v1-refused exchange now schedule mode callback user_data task =
        let (options, w') = job_options_for_mode p q mode task w in
        added-refused
          (add_job_function p q exchange now schedule options callback user_data w.scheduler) w'
          (scratched w mode task)
          (rw (scratched-scheduler w mode task) (
            add_job_function-refused exchange now schedule options callback user_data w.scheduler
              (not_running w.scheduler off)))
          (job_options_for_mode-scratched w mode task)

    add_job_once_utc_v1-refused :
        (exchange : Exchange p q) (now : DateTime) (when_utc : DateTime) (mode : SchedulerJobMode)
        (callback : Option ℕ) (user_data : ℕ) (task : Option SchedulerTaskConfig)
        → add_job_once_utc_v1 p q exchange now when_utc mode callback user_data task w
          ≡ (0, scratched w mode task)
    unfolding add_job_once_utc_v1 add_job_once_utc
    add_job_once_utc_v1-refused exchange now when_utc mode callback user_data task =
        let (options, w') = job_options_for_mode p q mode task w in
        added-refused
          (add_job_once_utc p q exchange now when_utc options callback user_data w.scheduler) w'
          (scratched w mode task)
          (rw (scratched-scheduler w mode task) (
            add_job_raw-refused exchange now (once_utc p when_utc) options callback user_data
              w.scheduler (not_running w.scheduler off)))
          (job_options_for_mode-scratched w mode task)

    add_function_once_utc_v1-refused :
        (exchange : Exchange p q) (now : DateTime) (when_utc : DateTime) (mode : SchedulerJobMode)
        (callback : Option ℕ) (user_data : ℕ) (task : Option SchedulerTaskConfig)
        → add_function_once_utc_v1 p q exchange now when_utc mode callback user_data task w
          ≡ (0, scratched w mode task)
    unfolding add_function_once_utc_v1 add_function_once_utc
    add_function_once_utc_v1-refused exchange now when_utc mode callback user_data task =
        let (options, w') = job_options_for_mode p q mode task w in
        added-refused
          (add_function_once_utc p q exchange now when_utc options callback user_data w.scheduler)
          w' (scratched w mode task)
          (rw (scratched-scheduler w mode task) (
            add_job_function-refused exchange now (once_utc p when_utc) options callback user_data
              w.scheduler (not_running w.scheduler off)))
          (job_options_for_mode-scratched w mode task)

    cancel_all_v1-refused :
        (exchange : Exchange p q) → w.tracked_job_ids ≡ [] → cancel_all_v1 p q exchange w ≡ w
    unfolding cancel_all_v1 cancel_all_request
    cancel_all_v1-refused exchange none_tracked =
        rw (when_running-refused p q _ _ w.scheduler (not_running w.scheduler off))
          (rw none_tracked refl)

    cancel_job_v1-refused :
        (exchange : Exchange p q) (job_id : ℕ) → cancel_job_v1 p q exchange job_id w ≡ (false, w)
    unfolding cancel_job_v1 cancel_job_request
    cancel_job_v1-refused exchange job_id =
        rw (when_running-refused p q _ _ w.scheduler (not_running w.scheduler off)) refl

    pause_job_v1-refused :
        (exchange : Exchange p q) (job_id : ℕ) → pause_job_v1 p q exchange job_id w ≡ (false, w)
    unfolding pause_job_v1 pause_job_request
    pause_job_v1-refused exchange job_id =
        rw (when_running-refused p q _ _ w.scheduler (not_running w.scheduler off)) refl

    resume_job_v1-refused :
        (exchange : Exchange p q) (now : DateTime) (job_id : ℕ)
        → resume_job_v1 p q exchange now job_id w ≡ (false, w)
    unfolding resume_job_v1 resume_job_request
    resume_job_v1-refused exchange now job_id =
        rw (when_running-refused p q _ _ w.scheduler (not_running w.scheduler off)) refl

  get_job_info_v1-untracked :
      (exchange : Exchange p q) (index : ℕ) (scratch : DedicatedTaskOptions) (id : Option ℕ)
      (s : EspScheduler p q)
      → let w : EspSchedulerV1Compat p q = record {
        tracked_job_ids = [];
        dedicated_task_scratch = scratch;
        worker_executor_id = id;
        scheduler = s;
      } in
        get_job_info_v1 p q exchange index w ≡ (none, w)
  unfolding get_job_info_v1 prune_tracked_jobs active_ids info_at
  get_job_info_v1-untracked exchange index scratch id s = refl

  -- What a wrapper answers that has let go of its jobs. A refused `addJob` only writes down its task's
  -- options.
  pub record IsInert (exchange : Exchange p q) (now : DateTime) (w : EspSchedulerV1Compat p q)
      : Type 0 where
    pub not_initialized : is_initialized p q w ≡ false
    pub adds_none :
        (schedule : ScheduleSpec p) (mode : SchedulerJobMode) (callback : Option ℕ) (user_data : ℕ)
        (task : Option SchedulerTaskConfig)
        → add_job_v1 p q exchange now schedule mode callback user_data task w
          ≡ (0, scratched w mode task)
    pub adds_no_function :
        (schedule : ScheduleSpec p) (mode : SchedulerJobMode) (callback : Option ℕ) (user_data : ℕ)
        (task : Option SchedulerTaskConfig)
        → add_function_v1 p q exchange now schedule mode callback user_data task w
          ≡ (0, scratched w mode task)
    pub adds_none_once :
        (when_utc : DateTime) (mode : SchedulerJobMode) (callback : Option ℕ) (user_data : ℕ)
        (task : Option SchedulerTaskConfig)
        → add_job_once_utc_v1 p q exchange now when_utc mode callback user_data task w
          ≡ (0, scratched w mode task)
    pub adds_no_function_once :
        (when_utc : DateTime) (mode : SchedulerJobMode) (callback : Option ℕ) (user_data : ℕ)
        (task : Option SchedulerTaskConfig)
        → add_function_once_utc_v1 p q exchange now when_utc mode callback user_data task w
          ≡ (0, scratched w mode task)
    pub cancels_none : (job_id : ℕ) → cancel_job_v1 p q exchange job_id w ≡ (false, w)
    pub pauses_none : (job_id : ℕ) → pause_job_v1 p q exchange job_id w ≡ (false, w)
    pub resumes_none : (job_id : ℕ) → resume_job_v1 p q exchange now job_id w ≡ (false, w)
    pub cancels_nothing : cancel_all_v1 p q exchange w ≡ w
    pub knows_none : (index : ℕ) → get_job_info_v1 p q exchange index w ≡ (none, w)

  -- After `deinit`, in whatever state it was called, a wrapper is not initialized; every form of addJob and
  -- addJobOnceUtc adds none and answers 0, cancelJob, pauseJob and resumeJob answer false, and
  -- getJobInfo has no job to tell of. These calls and cancelAll leave the wrapper as it is, but
  -- that an addJob with options for its task writes these down first.
  pub deinit-IsInert :
      (answers : EndAnswers p q) (exchange : Exchange p q) (now : DateTime)
      (w : EspSchedulerV1Compat p q)
      → IsInert exchange now (deinit p q answers w)
  unfolding is_initialized deinit
  deinit-IsInert answers exchange now w =
      let w' = deinit p q answers w in
      let off = deinit-started answers w in
      record {
        not_initialized = not_running w'.scheduler off;
        adds_none = add_job_v1-refused w' off exchange now;
        adds_no_function = add_function_v1-refused w' off exchange now;
        adds_none_once = add_job_once_utc_v1-refused w' off exchange now;
        adds_no_function_once = add_function_once_utc_v1-refused w' off exchange now;
        cancels_none = cancel_job_v1-refused w' off exchange;
        pauses_none = pause_job_v1-refused w' off exchange;
        resumes_none = resume_job_v1-refused w' off exchange now;
        cancels_nothing = cancel_all_v1-refused w' off exchange refl;
        knows_none = λ index.
            get_job_info_v1-untracked exchange index w'.dedicated_task_scratch w'.worker_executor_id
              w'.scheduler;
      }
