-- ===== src/Facade/Requests.antt =====
-- The public calls of scheduler.cpp, each with its check of the facade's state, by way of the service
-- or on the manual core. `none` is a facade whose `impl_` was not allocated. In background mode the time
-- of a call is the service's, and `now` is not used.
use esp_scheduler.Prelude.{◌&&◌, ◌||◌, if◌then◌else◌, ℕ, true, not, Option, none, some, ℤ}
use esp_scheduler.Platform.{Platform}
use esp_scheduler.Freertos.{Queues}
use esp_scheduler.Schedule.Spec.{ScheduleSpec, once_utc}
use esp_scheduler.Core.Job.{
  JobOptions, CallbackRef, raw_function, owning_function, SchedulerResult, new_info, success,
  failure, invalid_schedule, not_initialized, executor_unavailable, present,
}
use esp_scheduler.Core.Scheduler.{Core, set_min_valid_unix_seconds}
use esp_scheduler.Core.Calls.{
  cancel_job, pause_job, resume_job, cancel_all, refresh_all_schedules, job_count, get_job_info,
}
use esp_scheduler.Core.AddJob.{add_job}
use esp_scheduler.Core.Dispatch.{is_inline}
use esp_scheduler.Service.Commands.{
  ServiceCommand, Reply, number, done, informed, add_job_command, cancel_job_command,
  pause_job_command, resume_job_command, cancel_all_command, refresh_all_schedules_command,
  job_count_command, get_job_info_command, set_min_valid_command,
}
use esp_scheduler.Facade.{Impl, Outside, executor_for, drain_manual_events}
use esp_scheduler.Facade.Background.{Exchange, execute_background}
use esp_scheduler.Facade.Lifecycle.{background_service}

module _ (p : Platform) (q : Queues) where
  open p use {DateTime}

  abbrev pub EspScheduler : Type 0
  EspScheduler = Option (Impl p q)

  -- A command in background mode, or the manual core's own answer.
  unfoldable pub request :
      Exchange p q
      → ServiceCommand p
      → (Impl p q → Reply p × Impl p q)
      → Impl p q
      → Reply p × Impl p q
  unfolding execute_background
  request exchange command on_core i = elim (background_service p q i) [
    | none ↦ on_core i
    | some s ↦
        let (reply, s') = execute_background p q exchange command s in
        (reply, record i { service = some s' })
  ]

  -- A call that is refused unless the facade is running.
  unfoldable pub when_running :
      Reply p → (Impl p q → Reply p × Impl p q) → EspScheduler → Reply p × EspScheduler
  when_running refused act none = (refused, none)
  when_running refused act (some i) =
      let (reply, i') = act i in
      if not i.started || i.draining then (refused, some i) else (reply, some i')

  -- A call that is refused unless the facade is started.
  unfoldable pub when_started :
      Reply p → (Impl p q → Reply p × Impl p q) → EspScheduler → Reply p × EspScheduler
  when_started refused act none = (refused, none)
  when_started refused act (some i) =
      let (reply, i') = act i in if not i.started then (refused, some i) else (reply, some i')

  -- `addJobImpl`, on a facade that is running: what the core does, and the check of the executor.
  unfoldable pub add_on_core :
      DateTime → ScheduleSpec p → JobOptions → CallbackRef → Impl p q → Reply p × Impl p q
  add_on_core now schedule options callback i =
      let (result, c) = add_job p i.manual_core schedule options callback now in
      (number result, record i { manual_core = c })

  unfoldable pub add_checked :
      Exchange p q
      → DateTime
      → ScheduleSpec p
      → JobOptions
      → CallbackRef
      → Impl p q
      → Reply p × Impl p q
  unfolding request executor_for add_on_core
  add_checked exchange now schedule options callback i =
      if not (is_inline options.dispatch) && not (present (executor_for p q i options.executor_id))
      then (number (failure executor_unavailable), i)
      else request exchange (add_job_command schedule options callback)
          (add_on_core now schedule options callback) i

  unfoldable pub add_job_impl :
      Exchange p q
      → DateTime
      → ScheduleSpec p
      → JobOptions
      → CallbackRef
      → EspScheduler
      → Reply p × EspScheduler
  unfolding when_running add_checked
  add_job_impl exchange now schedule options callback =
      when_running (number (failure not_initialized))
        (add_checked exchange now schedule options callback)

  -- `addJob` of a raw function.
  unfoldable pub add_job_raw :
      Exchange p q
      → DateTime
      → ScheduleSpec p
      → JobOptions
      → Option ℕ
      → ℕ
      → EspScheduler
      → Reply p × EspScheduler
  unfolding add_job_impl
  add_job_raw exchange now schedule options none user_data s =
      (number (failure invalid_schedule), s)
  add_job_raw exchange now schedule options (some callback) user_data s =
      add_job_impl exchange now schedule options
        (record {
          kind = raw_function;
          raw_fn = some callback;
          user_data = user_data;
          owning_fn = none;
        })
        s

  -- `addJob` of a function object. One without an argument comes wrapped, with no user data.
  unfoldable pub add_job_function :
      Exchange p q
      → DateTime
      → ScheduleSpec p
      → JobOptions
      → Option ℕ
      → ℕ
      → EspScheduler
      → Reply p × EspScheduler
  unfolding add_job_impl
  add_job_function exchange now schedule options none user_data s =
      (number (failure invalid_schedule), s)
  add_job_function exchange now schedule options (some callback) user_data s =
      add_job_impl exchange now schedule options
        (record {
          kind = owning_function;
          raw_fn = none;
          user_data = user_data;
          owning_fn = some callback;
        })
        s

  -- `addJobOnceUtc` of a raw function and of a function object.
  unfoldable pub add_job_once_utc :
      Exchange p q
      → DateTime
      → DateTime
      → JobOptions
      → Option ℕ
      → ℕ
      → EspScheduler
      → Reply p × EspScheduler
  unfolding add_job_raw once_utc
  add_job_once_utc exchange now when_utc = add_job_raw exchange now (once_utc p when_utc)

  unfoldable pub add_function_once_utc :
      Exchange p q
      → DateTime
      → DateTime
      → JobOptions
      → Option ℕ
      → ℕ
      → EspScheduler
      → Reply p × EspScheduler
  unfolding add_job_function once_utc
  add_function_once_utc exchange now when_utc = add_job_function exchange now (once_utc p when_utc)

  -- A call of the manual core that may change it.
  abbrev pub change_core :
      (Core p → SchedulerResult (Unit {0}) × Core p) → Impl p q → Reply p × Impl p q
  change_core change i =
      let (result, c) = change i.manual_core in (done result, record i { manual_core = c })

  unfoldable pub cancel_job_request : Exchange p q → ℕ → EspScheduler → Reply p × EspScheduler
  unfolding when_running request
  cancel_job_request exchange job_id =
      when_running (done (failure not_initialized))
        (request exchange (cancel_job_command job_id) (change_core λ c. cancel_job p c job_id))

  unfoldable pub pause_job_request : Exchange p q → ℕ → EspScheduler → Reply p × EspScheduler
  unfolding when_running request
  pause_job_request exchange job_id =
      when_running (done (failure not_initialized))
        (request exchange (pause_job_command job_id) (change_core λ c. pause_job p c job_id))

  unfoldable pub resume_job_request :
      Exchange p q → DateTime → ℕ → EspScheduler → Reply p × EspScheduler
  unfolding when_running request
  resume_job_request exchange now job_id =
      when_running (done (failure not_initialized))
        (request exchange (resume_job_command job_id) (change_core λ c. resume_job p c job_id now))

  unfoldable pub cancel_all_request : Exchange p q → EspScheduler → Reply p × EspScheduler
  unfolding when_running request
  cancel_all_request exchange =
      when_running (done (failure not_initialized))
        (request exchange cancel_all_command (change_core (cancel_all p)))

  -- In manual mode the completions that have come in are handled first.
  unfoldable pub refresh_on_core : Outside p → DateTime → Impl p q → Reply p × Impl p q
  unfolding drain_manual_events
  refresh_on_core outside now i =
      change_core (λ c. refresh_all_schedules p c now) (drain_manual_events p q outside now i)

  unfoldable pub refresh_all_schedules_request :
      Exchange p q → Outside p → DateTime → EspScheduler → Reply p × EspScheduler
  unfolding when_running request refresh_on_core
  refresh_all_schedules_request exchange outside now =
      when_running (done (failure not_initialized))
        (request exchange refresh_all_schedules_command (refresh_on_core outside now))

  abbrev pub count_on_core : Impl p q → Reply p × Impl p q
  count_on_core i = (number (job_count p i.manual_core), i)

  unfoldable pub job_count_request : Exchange p q → EspScheduler → Reply p × EspScheduler
  unfolding when_started request
  job_count_request exchange =
      when_started (number (failure not_initialized))
        (request exchange job_count_command count_on_core)

  abbrev pub info_on_core : ℕ → Impl p q → Reply p × Impl p q
  info_on_core job_id i =
      let (result, info) = get_job_info p i.manual_core job_id in (informed result (some info), i)

  -- `informed` has what is written to `out`, if anything.
  unfoldable pub get_job_info_request : Exchange p q → ℕ → EspScheduler → Reply p × EspScheduler
  unfolding when_started request
  get_job_info_request exchange job_id =
      when_started (informed (failure not_initialized) (some (new_info p)))
        (request exchange (get_job_info_command job_id true) (info_on_core job_id))

  -- The core's part of `setMinValidUnixSeconds`; no answer is given to the caller.
  abbrev pub bound_on_core : ℤ → Impl p q → Reply p × Impl p q
  bound_on_core min_epoch i = (
    done (success tt),
    record i { manual_core = set_min_valid_unix_seconds p i.manual_core min_epoch },
  )

  -- `setMinValidUnixSeconds`, and `setMinValidUtc` by its epoch. It may be called at any time.
  unfoldable pub set_min_valid_request : Exchange p q → ℤ → EspScheduler → EspScheduler
  unfolding request
  set_min_valid_request exchange min_epoch none = none
  set_min_valid_request exchange min_epoch (some i₀) =
      let i = record i₀ { config = record (i₀.config) { min_valid_epoch_seconds = min_epoch } } in
      some (
        if not i.started
        then (bound_on_core min_epoch i).1
        else (request exchange (set_min_valid_command min_epoch) (bound_on_core min_epoch) i).1)

  unfoldable pub set_min_valid_utc : Exchange p q → DateTime → EspScheduler → EspScheduler
  unfolding set_min_valid_request
  set_min_valid_utc exchange min_utc = set_min_valid_request exchange (p.epoch_seconds min_utc)
