-- ===== src/Facade/Sound/Calls.antt =====
-- The public calls of scheduler.cpp and `tick` keep the cores sound.
use esp_scheduler.Prelude.{
  ◌≡◌, ◌&&◌, ◌||◌, if◌then◌else◌, ℕ, Bool, true, false, not, none, some, refl, arith, inl, inr,
  Option-cases,
}
use esp_scheduler.Platform.{Platform}
use esp_scheduler.Freertos.{Queues}
use esp_scheduler.Schedule.Spec.{ScheduleSpec}
use esp_scheduler.Core.Job.{
  SchedulerResult, failure, not_initialized, present, JobOptions, CallbackRef,
}
use esp_scheduler.Core.Scheduler.{Core}
use esp_scheduler.Core.Calls.{refresh_all_schedules, cancel_all, cancel_job, pause_job, resume_job}
use esp_scheduler.Core.Dispatch.{is_inline, call_refresh, apply_call, dispatch_due}
use esp_scheduler.Core.Sound.{IsSound, apply_call-IsSound, dispatch_due-IsSound}
use esp_scheduler.Service.Commands.{
  ServiceCommand, Reply, number, done, execute, execute-IsSound, add_job_command,
  cancel_job_command, pause_job_command, resume_job_command, cancel_all_command,
  refresh_all_schedules_command, job_count_command, get_job_info_command, set_min_valid_command,
}
use esp_scheduler.Facade.{
  Impl, Outside, resolver, executor_for, drain_manual_events, refresh_time_context_if_needed,
}
use esp_scheduler.Facade.Background.{Exchange}
use esp_scheduler.Facade.Lifecycle.{background_service}
use esp_scheduler.Facade.Sound.{
  CoresSound, keep, if-keeps, if-second, KeepsSound, execute_background-IsSound,
  drain_manual_events-CoresSound,
}
use esp_scheduler.Facade.Requests.{
  EspScheduler, request, when_running, when_started, add_job_impl, add_checked, add_on_core,
  change_core, bound_on_core, count_on_core, info_on_core, refresh_on_core, cancel_job_request,
  pause_job_request, resume_job_request, cancel_all_request, refresh_all_schedules_request,
  job_count_request, get_job_info_request, set_min_valid_request,
}
use esp_scheduler.Facade.Tick.{tick_manual}
use esp_scheduler.Facade.Stopped.{public_call, callback_given}

module _ (p : Platform) (q : Queues) where
  open p use {DateTime}

  observed-CoresSound :
      (now : DateTime) (i : Impl p q)
      → CoresSound p q i
      → CoresSound p q (refresh_time_context_if_needed p q now i).1
  unfolding refresh_time_context_if_needed
  observed-CoresSound now i v =
      if-second p q (not i.context.has_last_observed) _ _ (keep p q v refl refl) (
        if-second p q (not (p.is_equal (p.start_of_day_local now) i.context.last_observed)) _ _
          (keep p q v refl refl) (keep p q v refl refl))

  pub tick_manual-CoresSound :
      (outside : Outside p) (rounds : ℕ) (now : DateTime) (i : Impl p q)
      → CoresSound p q i
      → CoresSound p q (tick_manual p q outside rounds now i)
  unfolding tick_manual apply_call
  tick_manual-CoresSound outside rounds now i v =
      let drained = drain_manual_events p q outside now i in
      let (refresh, observed) = refresh_time_context_if_needed p q now drained in
      let v' : CoresSound p q observed =
        observed-CoresSound now drained (drain_manual_events-CoresSound p q outside now i v) in
      let refreshed =
        if refresh
        then record observed { manual_core = (refresh_all_schedules p observed.manual_core now).1 }
        else observed in
      let v'' : CoresSound p q refreshed =
        if-keeps (CoresSound p q) refresh _ _
          (record {
            manual_sound =
                apply_call-IsSound p observed.manual_core (call_refresh now) v'.manual_sound;
            service_is_sound = v'.service_is_sound;
          })
          v' in
      let resolved = resolver p q outside refreshed in
      let c = dispatch_due p resolved rounds now refreshed.manual_core in
      drain_manual_events-CoresSound p q outside now (record refreshed { manual_core = c })
        (record {
          manual_sound =
              dispatch_due-IsSound p resolved rounds now refreshed.manual_core v''.manual_sound;
          service_is_sound = v''.service_is_sound;
        })

  abbrev pub SoundWhereAllocated : EspScheduler p q → Type 0
  SoundWhereAllocated none = Unit
  SoundWhereAllocated (some i) = CoresSound p q i

  request-CoresSound :
      (exchange : Exchange p q) (command : ServiceCommand p)
      (on_core : Impl p q → Reply p × Impl p q) (i : Impl p q)
      → KeepsSound p q exchange
      → CoresSound p q (on_core i).1
      → CoresSound p q i
      → CoresSound p q (request p q exchange command on_core i).1
  unfolding request
  request-CoresSound exchange command on_core i keeps w v =
      elim (Option-cases (background_service p q i)) [
        | inl absent ↦ rw (absent, request) w
        | inr (s, there) ↦
            let held : i.service ≡ some s = ground arith in
            rw (there, request)
              (record {
                manual_sound = v.manual_sound;
                service_is_sound =
                    execute_background-IsSound p q exchange command s keeps
                      (rw held at v.service_is_sound);
              })
      ]

  if-allocated :
      (b : Bool) (x y : Reply p × EspScheduler p q)
      → SoundWhereAllocated x.1
      → SoundWhereAllocated y.1
      → SoundWhereAllocated (if b then x else y).1
  if-allocated true x y v w = v
  if-allocated false x y v w = w

  when_running-SoundWhereAllocated :
      (refused : Reply p) (act : Impl p q → Reply p × Impl p q) (i : Impl p q)
      → CoresSound p q i
      → CoresSound p q (act i).1
      → SoundWhereAllocated (when_running p q refused act (some i)).1
  unfolding when_running
  when_running-SoundWhereAllocated refused act i v w =
      if-allocated (not i.started || i.draining) _ _ v w

  when_started-SoundWhereAllocated :
      (refused : Reply p) (act : Impl p q → Reply p × Impl p q) (i : Impl p q)
      → CoresSound p q i
      → CoresSound p q (act i).1
      → SoundWhereAllocated (when_started p q refused act (some i)).1
  unfolding when_started
  when_started-SoundWhereAllocated refused act i v w = if-allocated (not i.started) _ _ v w

  -- The facade's core after an execution on it.
  executed :
      (command : ServiceCommand p) (now : DateTime) (i : Impl p q)
      → CoresSound p q i
      → CoresSound p q (record i { manual_core = (execute p command now i.manual_core).1 })
  executed command now i v = record {
    manual_sound = execute-IsSound p command now i.manual_core v.manual_sound;
    service_is_sound = v.service_is_sound;
  }

  module _ (exchange : Exchange p q) (outside : Outside p) (now : DateTime) where
    change-SoundWhereAllocated :
        (command : ServiceCommand p) (change : Core p → SchedulerResult (Unit {0}) × Core p)
        (i : Impl p q)
        → KeepsSound p q exchange
        → CoresSound p q i
        → IsSound p (change i.manual_core).1
        → SoundWhereAllocated
            (when_running p q
              (done (failure not_initialized))
              (request p q exchange command (change_core p q change))
              (some i)).1
    change-SoundWhereAllocated command change i keeps v w =
        when_running-SoundWhereAllocated (done (failure not_initialized))
          (request p q exchange command (change_core p q change)) i v
          (request-CoresSound exchange command (change_core p q change) i keeps
            (record { manual_sound = w; service_is_sound = v.service_is_sound }) v)

    add_checked-CoresSound :
        (schedule : ScheduleSpec p) (options : JobOptions) (callback : CallbackRef) (i : Impl p q)
        → KeepsSound p q exchange
        → CoresSound p q i
        → CoresSound p q (add_checked p q exchange now schedule options callback i).1
    unfolding add_checked add_on_core execute
    add_checked-CoresSound schedule options callback i keeps v =
        let command = add_job_command schedule options callback in
        if-second p q
          (not (is_inline options.dispatch)
            && not (present (executor_for p q i options.executor_id)))
          _ _ v
          (request-CoresSound exchange command (add_on_core p q now schedule options callback) i
            keeps (executed command now i v) v)

    pub public_call-SoundWhereAllocated :
        (command : ServiceCommand p) (i : Impl p q)
        → KeepsSound p q exchange
        → CoresSound p q i
        → SoundWhereAllocated (public_call p q exchange outside now command (some i)).1
    unfolding public_call add_job_impl cancel_job_request pause_job_request resume_job_request
        cancel_all_request refresh_all_schedules_request job_count_request get_job_info_request
        set_min_valid_request execute refresh_on_core
    public_call-SoundWhereAllocated (add_job_command schedule options callback) i keeps v =
        if-allocated (callback_given p q callback) _ _
          (when_running-SoundWhereAllocated (number (failure not_initialized))
            (add_checked p q exchange now schedule options callback) i v
            (add_checked-CoresSound schedule options callback i keeps v))
          v
    public_call-SoundWhereAllocated (cancel_job_command job_id) i keeps v =
        change-SoundWhereAllocated (cancel_job_command job_id) (λ c. cancel_job p c job_id) i keeps
          v (execute-IsSound p (cancel_job_command job_id) now i.manual_core v.manual_sound)
    public_call-SoundWhereAllocated (pause_job_command job_id) i keeps v =
        change-SoundWhereAllocated (pause_job_command job_id) (λ c. pause_job p c job_id) i keeps v
          (execute-IsSound p (pause_job_command job_id) now i.manual_core v.manual_sound)
    public_call-SoundWhereAllocated (resume_job_command job_id) i keeps v =
        change-SoundWhereAllocated (resume_job_command job_id) (λ c. resume_job p c job_id now) i
          keeps v (execute-IsSound p (resume_job_command job_id) now i.manual_core v.manual_sound)
    public_call-SoundWhereAllocated cancel_all_command i keeps v =
        change-SoundWhereAllocated cancel_all_command (cancel_all p) i keeps v
          (execute-IsSound p cancel_all_command now i.manual_core v.manual_sound)
    public_call-SoundWhereAllocated refresh_all_schedules_command i keeps v =
        let drained = drain_manual_events p q outside now i in
        let on_core = refresh_on_core p q outside now in
        when_running-SoundWhereAllocated (done (failure not_initialized))
          (request p q exchange refresh_all_schedules_command on_core) i v
          (request-CoresSound exchange refresh_all_schedules_command on_core i keeps
            (executed refresh_all_schedules_command now drained
              (drain_manual_events-CoresSound p q outside now i v))
            v)
    public_call-SoundWhereAllocated job_count_command i keeps v =
        when_started-SoundWhereAllocated _
          (request p q exchange job_count_command (count_on_core p q)) i v
          (request-CoresSound exchange job_count_command (count_on_core p q) i keeps v v)
    public_call-SoundWhereAllocated (get_job_info_command job_id has_info) i keeps v =
        let command = get_job_info_command job_id true in
        when_started-SoundWhereAllocated _ (request p q exchange command (info_on_core p q job_id))
          i v (request-CoresSound exchange command (info_on_core p q job_id) i keeps v v)
    public_call-SoundWhereAllocated (set_min_valid_command min_epoch) i keeps v =
        let j = record i { config = record (i.config) { min_valid_epoch_seconds = min_epoch } } in
        let w = executed (set_min_valid_command min_epoch) now j (keep p q v refl refl) in
        if-keeps (CoresSound p q) (not i.started) _ _ w (
          request-CoresSound exchange (set_min_valid_command min_epoch)
            (bound_on_core p q min_epoch) j keeps w (keep p q v refl refl))
