-- ===== src/Facade/Stopped.antt =====
-- When scheduler.cpp refuses a call, and that in manual mode a call is the core's own.
use esp_scheduler.Prelude.{
  ◌≡◌, ◌&&◌, ◌||◌, if◌then◌else◌, Bool, true, false, not, none, some, refl, arith, inl, inr,
  Bool-cases,
}
use esp_scheduler.Platform.{Platform}
use esp_scheduler.Freertos.{Queues}
use esp_scheduler.Core.Job.{
  CallbackRef, raw_function, owning_function, invalid_schedule, success, failure, not_initialized,
  present, new_info, JobOptions,
}
use esp_scheduler.Core.Dispatch.{is_inline}
use esp_scheduler.Service.Commands.{
  ServiceCommand, Reply, number, done, informed, add_job_command, cancel_job_command,
  pause_job_command, resume_job_command, cancel_all_command, refresh_all_schedules_command,
  job_count_command, get_job_info_command, set_min_valid_command, execute, failed_with,
}
use esp_scheduler.Facade.{Impl, Outside, is_background, executor_for, drain_manual_events}
use esp_scheduler.Facade.Background.{Exchange}
use esp_scheduler.Facade.Lifecycle.{running}
use esp_scheduler.Facade.Requests.{
  EspScheduler, request, when_running, when_started, add_job_impl, add_checked, add_on_core,
  refresh_on_core, bound_on_core, cancel_job_request, pause_job_request, resume_job_request,
  cancel_all_request, refresh_all_schedules_request, job_count_request, get_job_info_request,
  set_min_valid_request,
}

and-parts : (a b : Bool) → (a && b) ≡ true → (a ≡ true) × (b ≡ true)
and-parts a b h = ground arith

module _ (p : Platform) (q : Queues) where
  open p use {DateTime}

  abbrev pub started : EspScheduler p q → Bool
  started none = false
  started (some i) = i.started

  -- Whether an `addJob` is given a function.
  abbrev pub callback_given : CallbackRef → Bool
  callback_given callback = elim callback.kind [
    | raw_function ↦ present callback.raw_fn
    | owning_function ↦ present callback.owning_fn
  ]

  -- Whether the facade lets a call through: the questions also while it drains, the clock's bound
  -- always, and all others only while it is running; `addJob` also only with a function.
  abbrev pub accepts : EspScheduler p q → ServiceCommand p → Bool
  accepts s (add_job_command schedule options callback) = callback_given callback && running p q s
  accepts s job_count_command = started s
  accepts s (get_job_info_command job_id has_info) = started s
  accepts s (set_min_valid_command min_epoch) = true
  accepts s _ = running p q s

  -- What a call answers that is not let through: `addJob` without a function is told so first, and
  -- `getJobInfo` then clears what it was given.
  abbrev pub refusal : ServiceCommand p → Reply p
  refusal (add_job_command schedule options callback) =
      if callback_given callback
      then number (failure not_initialized)
      else number (failure invalid_schedule)
  refusal (get_job_info_command job_id has_info) =
      informed (failure not_initialized) (some (new_info p))
  refusal command = failed_with p not_initialized command

  pub when_running-refused :
      (refused : Reply p) (act : Impl p q → Reply p × Impl p q) (s : EspScheduler p q)
      → running p q s ≡ false
      → when_running p q refused act s ≡ (refused, s)
  unfolding when_running running
  when_running-refused refused act none h = refl
  when_running-refused refused act (some i) h = ground arith

  pub when_started-refused :
      (refused : Reply p) (act : Impl p q → Reply p × Impl p q) (s : EspScheduler p q)
      → started s ≡ false
      → when_started p q refused act s ≡ (refused, s)
  unfolding when_started
  when_started-refused refused act none h = refl
  when_started-refused refused act (some i) h = ground arith

  module _ (exchange : Exchange p q) (outside : Outside p) (now : DateTime) where
    -- The public call that a command stands for. Each `addJob` looks at its function first.
    unfoldable pub public_call : ServiceCommand p → EspScheduler p q → Reply p × EspScheduler p q
    public_call (add_job_command schedule options callback) s =
        if callback_given callback
        then add_job_impl p q exchange now schedule options callback s
        else (number (failure invalid_schedule), s)
    public_call (cancel_job_command job_id) s = cancel_job_request p q exchange job_id s
    public_call (pause_job_command job_id) s = pause_job_request p q exchange job_id s
    public_call (resume_job_command job_id) s = resume_job_request p q exchange now job_id s
    public_call cancel_all_command s = cancel_all_request p q exchange s
    public_call refresh_all_schedules_command s =
        refresh_all_schedules_request p q exchange outside now s
    public_call job_count_command s = job_count_request p q exchange s
    public_call (get_job_info_command job_id has_info) s =
        get_job_info_request p q exchange job_id s
    public_call (set_min_valid_command min_epoch) s =
        (done (success tt), set_min_valid_request p q exchange min_epoch s)

    -- A call that adds, cancels, pauses, resumes or refreshes jobs while the facade is not running, and
    -- a question about jobs while it is not started, answers NotInitialized and changes nothing, in
    -- both modes. An addJob without a function answers InvalidSchedule in every state, and changes
    -- nothing either.
    pub public_call-refused :
        (command : ServiceCommand p) (s : EspScheduler p q)
        → accepts s command ≡ false
        → public_call command s ≡ (refusal command, s)
    unfolding public_call add_job_impl cancel_job_request pause_job_request resume_job_request
        cancel_all_request refresh_all_schedules_request job_count_request get_job_info_request
        failed_with
    public_call-refused (add_job_command schedule options callback) s h =
        elim (Bool-cases (callback_given callback)) [
          | inl given ↦
              let refused =
                when_running-refused (number (failure not_initialized))
                  (add_checked p q exchange now schedule options callback) s (ground arith) in
              rw given refused
          | inr missing ↦ rw missing refl
        ]
    public_call-refused (cancel_job_command job_id) s h = when_running-refused _ _ s h
    public_call-refused (pause_job_command job_id) s h = when_running-refused _ _ s h
    public_call-refused (resume_job_command job_id) s h = when_running-refused _ _ s h
    public_call-refused cancel_all_command s h = when_running-refused _ _ s h
    public_call-refused refresh_all_schedules_command s h = when_running-refused _ _ s h
    public_call-refused job_count_command s h = when_started-refused _ _ s h
    public_call-refused (get_job_info_command job_id has_info) s h = when_started-refused _ _ s h
    public_call-refused (set_min_valid_command min_epoch) s h = cc

    -- Whether a call is handed on to the core: `addJob` only with a function and for an executor that is
    -- there, and `getJobInfo` is always given an address.
    abbrev pub handed_on : Impl p q → ServiceCommand p → Bool
    handed_on i (add_job_command schedule options callback) =
        callback_given callback
        && (is_inline options.dispatch || present (executor_for p q i options.executor_id))
    handed_on i (get_job_info_command job_id has_info) = has_info
    handed_on i _ = true

    -- What comes before it: the completions that have come in, for `refreshAllSchedules`, and the bound
    -- in the configuration, for `setMinValidUnixSeconds`.
    abbrev pub prepared : ServiceCommand p → Impl p q → Impl p q
    prepared refresh_all_schedules_command i = drain_manual_events p q outside now i
    prepared (set_min_valid_command min_epoch) i = record i {
      config = record (i.config) { min_valid_epoch_seconds = min_epoch };
    }
    prepared _ i = i

    when_running-let_through :
        (refused : Reply p) (act : Impl p q → Reply p × Impl p q) (i : Impl p q)
        → i.started ≡ true
        → i.draining ≡ false
        → when_running p q refused act (some i) ≡ ((act i).0, some (act i).1)
    unfolding when_running
    when_running-let_through refused act i s d = ground arith

    when_started-let_through :
        (refused : Reply p) (act : Impl p q → Reply p × Impl p q) (i : Impl p q)
        → i.started ≡ true
        → when_started p q refused act (some i) ≡ ((act i).0, some (act i).1)
    unfolding when_started
    when_started-let_through refused act i s = ground arith

    request-manual :
        (command : ServiceCommand p) (on_core : Impl p q → Reply p × Impl p q) (i : Impl p q)
        → is_background i.config.mode ≡ false
        → request p q exchange command on_core i ≡ on_core i
    unfolding request
    request-manual command on_core i m = rw (m, request) refl

    add_job-handed_on :
        (i : Impl p q) (x y : Reply p × Impl p q) (options : JobOptions)
        → (is_inline options.dispatch || present (executor_for p q i options.executor_id)) ≡ true
        → (if not (is_inline options.dispatch)
              && not (present (executor_for p q i options.executor_id))
            then x
            else y)
          ≡ y
    add_job-handed_on i x y options h = ground arith

    -- In manual mode a running facade answers each call that its checks let through by what its core
    -- executes at that time, and keeps the core that results; before that a refresh handles the
    -- completions that have come in, and setMinValidUnixSeconds keeps the bound in the configuration.
    pub public_call-execute :
        (command : ServiceCommand p) (i : Impl p q)
        → i.started ≡ true
        → i.draining ≡ false
        → is_background i.config.mode ≡ false
        → handed_on i command ≡ true
        → let i' = prepared command i in
          let (reply, c) = execute p command now i'.manual_core in
          public_call command (some i) ≡ (reply, some (record i' { manual_core = c }))
    unfolding public_call add_job_impl cancel_job_request pause_job_request resume_job_request
        cancel_all_request refresh_all_schedules_request job_count_request get_job_info_request
        set_min_valid_request execute add_checked add_on_core refresh_on_core
    public_call-execute (add_job_command schedule options callback) i s d m h =
        let (given, there) = and-parts (callback_given callback) _ h in
        rw given (
          rw (when_running-let_through _ _ i s d)
            (rw (add_job-handed_on i _ _ options there) (rw (request-manual _ _ i m) refl)))
    public_call-execute (cancel_job_command job_id) i s d m h =
        rw (when_running-let_through _ _ i s d) (rw (request-manual _ _ i m) refl)
    public_call-execute (pause_job_command job_id) i s d m h =
        rw (when_running-let_through _ _ i s d) (rw (request-manual _ _ i m) refl)
    public_call-execute (resume_job_command job_id) i s d m h =
        rw (when_running-let_through _ _ i s d) (rw (request-manual _ _ i m) refl)
    public_call-execute cancel_all_command i s d m h =
        rw (when_running-let_through _ _ i s d) (rw (request-manual _ _ i m) refl)
    public_call-execute refresh_all_schedules_command i s d m h =
        rw (when_running-let_through _ _ i s d) (rw (request-manual _ _ i m) refl)
    public_call-execute job_count_command i s d m h =
        rw (when_started-let_through _ _ i s) (rw (request-manual _ _ i m) refl)
    public_call-execute (get_job_info_command job_id true) i s d m h =
        rw (when_started-let_through _ _ i s) (rw (request-manual _ _ i m) refl)
    public_call-execute (get_job_info_command job_id false) i s d m h = cc
    public_call-execute (set_min_valid_command min_epoch) i s d m h =
        let bounded = prepared (set_min_valid_command min_epoch) i in
        rw
          (request-manual (set_min_valid_command min_epoch) (bound_on_core p q min_epoch) bounded m)
          (rw s refl)
