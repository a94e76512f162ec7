-- ===== src/Facade/Ready/Reach.antt =====
-- What a facade of scheduler.cpp holds in every state that it comes to: what its mode needs while it is
-- started, and nothing else while it is not.
use esp_scheduler.Prelude.{
  ◌≡◌, [], ◌||◌, if◌then◌else◌, ℕ, Bool, true, false, not, Option, none, some, List, refl, arith,
  inl, inr, Option-cases, Bool-cases,
}
use esp_scheduler.Platform.{Platform}
use esp_scheduler.Freertos.{Queues}
use esp_scheduler.Schedule.Spec.{ScheduleSpec}
use esp_scheduler.Core.Job.{
  SchedulerEvent, SchedulerResult, failure, not_initialized, present, JobOptions, CallbackRef,
}
use esp_scheduler.Core.Scheduler.{Core}
use esp_scheduler.Core.Calls.{refresh_all_schedules, cancel_all, cancel_job, pause_job, resume_job}
use esp_scheduler.Core.Dispatch.{dispatch_due}
use esp_scheduler.Service.Commands.{
  ServiceCommand, Reply, number, done, add_job_command, cancel_job_command, pause_job_command,
  resume_job_command, cancel_all_command, refresh_all_schedules_command, job_count_command,
  get_job_info_command, set_min_valid_command,
}
use esp_scheduler.Facade.{
  Impl, Outside, ExecutorRef, new_impl, resolver, drain_manual_events,
  refresh_time_context_if_needed, register_executor, request_time_context_refresh,
}
use esp_scheduler.Facade.Background.{Exchange}
use esp_scheduler.Facade.Lifecycle.{
  BeginAnswers, EndAnswers, background_service, events_arrive, end_scheduler, begin_scheduler,
}
use esp_scheduler.Facade.Requests.{
  EspScheduler, request, when_running, when_started, add_job_impl, add_checked, add_on_core,
  change_core, bound_on_core, count_on_core, info_on_core, refresh_on_core, cancel_job_request,
  pause_job_request, resume_job_request, cancel_all_request, refresh_all_schedules_request,
  job_count_request, get_job_info_request, set_min_valid_request,
}
use esp_scheduler.Facade.Tick.{tick_manual, tick_impl}
use esp_scheduler.Facade.Stopped.{public_call, callback_given}
use esp_scheduler.Facade.Sound.Reach.{
  FacadeStep, FacadeReachable, after, begun, end_entered, ended, called, ticked, registered,
  synchronised, completions_posted, service_moved, outside_shifted, made, moved,
}
use esp_scheduler.Facade.Ready.{
  IsStopped, IsReady, IsUp, begin_scheduler-IsReady, end_scheduler-IsStopped,
}

module _ (p : Platform) (q : Queues) where
  open p use {DateTime}

  pub record IsTidy (i : Impl p q) : Type 0 where
    pub while_started : i.started ≡ true → IsUp p q i
    pub while_stopped : i.started ≡ false → IsStopped p q i

  -- What a call leaves alone that neither begins nor ends the facade.
  record SameHold (i j : Impl p q) : Type 0 where
    same_mode : j.config.mode ≡ i.config.mode
    same_started : j.started ≡ i.started
    same_draining : j.draining ≡ i.draining
    same_runtime : j.runtime ≡ i.runtime
    same_listener : j.ntp_sync_listener_id ≡ i.ntp_sync_listener_id
    same_executors : j.executors.items ≡ i.executors.items
    same_service : present j.service ≡ present i.service
    same_inline : j.inline_dispatch ≡ i.inline_dispatch
    same_pool : j.worker_pool ≡ i.worker_pool
    same_esp_worker : j.esp_worker ≡ i.esp_worker
    same_dedicated : j.dedicated_task ≡ i.dedicated_task
    same_queue : present j.event_queue ≡ present i.event_queue

  present-none : {A : Type 0} (o : Option A) → present o ≡ false → o ≡ none
  present-none none e = refl
  present-none (some a) e = ground arith

  SameHold-refl : (i : Impl p q) → SameHold i i
  SameHold-refl i = ground arith

  SameHold-trans : (i j k : Impl p q) → SameHold i j → SameHold j k → SameHold i k
  SameHold-trans i j k v w = ground arith

  IsTidy-SameHold : (i j : Impl p q) → SameHold i j → IsTidy i → IsTidy j
  IsTidy-SameHold i j v t = ground (arith, present-none j.service, present-none j.event_queue)

  drain_manual_events-SameHold :
      (outside : Outside p) (now : DateTime) (i : Impl p q)
      → SameHold i (drain_manual_events p q outside now i)
  unfolding drain_manual_events
  drain_manual_events-SameHold outside now i = elim (Option-cases i.event_queue) [
    | inl absent ↦ ground arith
    | inr (w, there) ↦ ground arith
  ]

  events_arrive-SameHold :
      (events : List SchedulerEvent) (i : Impl p q) → SameHold i (events_arrive p q events i)
  unfolding events_arrive
  events_arrive-SameHold events i = elim (Option-cases i.event_queue) [
    | inl absent ↦ ground arith
    | inr (w, there) ↦ ground arith
  ]

  tick_manual-SameHold :
      (outside : Outside p) (rounds : ℕ) (now : DateTime) (i : Impl p q)
      → SameHold i (tick_manual p q outside rounds now i)
  unfolding tick_manual refresh_time_context_if_needed
  tick_manual-SameHold outside rounds now i =
      let drained = drain_manual_events p q outside now i in
      let (refresh, observed) = refresh_time_context_if_needed p q now drained in
      let refreshed =
        if refresh
        then record observed { manual_core = (refresh_all_schedules p observed.manual_core now).1 }
        else observed in
      let c = dispatch_due p (resolver p q outside refreshed) rounds now refreshed.manual_core in
      ground (
        arith,
        drain_manual_events-SameHold outside now i,
        drain_manual_events-SameHold outside now (record refreshed { manual_core = c }),
      )

  request-SameHold :
      (exchange : Exchange p q) (command : ServiceCommand p)
      (on_core : Impl p q → Reply p × Impl p q) (i : Impl p q)
      → SameHold i (on_core i).1
      → SameHold i (request p q exchange command on_core i).1
  unfolding request
  request-SameHold exchange command on_core i w = elim (Option-cases (background_service p q i)) [
    | inl absent ↦ ground arith
    | inr (s, there) ↦ ground arith
  ]

  -- A facade after a call, where there is one.
  abbrev HoldWhereAllocated : Impl p q → EspScheduler p q → Type 0
  HoldWhereAllocated i none = Unit
  HoldWhereAllocated i (some j) = SameHold i j

  if-allocated :
      (i : Impl p q) (b : Bool) (x y : Reply p × EspScheduler p q)
      → HoldWhereAllocated i x.1
      → HoldWhereAllocated i y.1
      → HoldWhereAllocated i (if b then x else y).1
  if-allocated i true x y v w = v
  if-allocated i false x y v w = w

  when_running-SameHold :
      (refused : Reply p) (act : Impl p q → Reply p × Impl p q) (i : Impl p q)
      → SameHold i (act i).1
      → HoldWhereAllocated i (when_running p q refused act (some i)).1
  unfolding when_running
  when_running-SameHold refused act i w =
      if-allocated i (not i.started || i.draining) _ _ (SameHold-refl i) w

  when_started-SameHold :
      (refused : Reply p) (act : Impl p q → Reply p × Impl p q) (i : Impl p q)
      → SameHold i (act i).1
      → HoldWhereAllocated i (when_started p q refused act (some i)).1
  unfolding when_started
  when_started-SameHold refused act i w = if-allocated i (not i.started) _ _ (SameHold-refl i) w

  module _ (exchange : Exchange p q) (outside : Outside p) (now : DateTime) where
    add_checked-SameHold :
        (schedule : ScheduleSpec p) (options : JobOptions) (callback : CallbackRef) (i : Impl p q)
        → SameHold i (add_checked p q exchange now schedule options callback i).1
    unfolding add_checked add_on_core
    add_checked-SameHold schedule options callback i =
        let on_core = add_on_core p q now schedule options callback in
        ground (
          arith,
          request-SameHold exchange (add_job_command schedule options callback) on_core i
              (ground arith),
        )

    change-SameHold :
        (command : ServiceCommand p) (change : Core p → SchedulerResult (Unit {0}) × Core p)
        (i : Impl p q)
        → HoldWhereAllocated i
            (when_running p q
              (done (failure not_initialized))
              (request p q exchange command (change_core p q change))
              (some i)).1
    change-SameHold command change i =
        when_running-SameHold (done (failure not_initialized))
          (request p q exchange command (change_core p q change)) i
          (request-SameHold exchange command (change_core p q change) i (ground arith))

    public_call-SameHold :
        (command : ServiceCommand p) (i : Impl p q)
        → HoldWhereAllocated i (public_call p q exchange outside now command (some i)).1
    unfolding public_call add_job_impl cancel_job_request pause_job_request resume_job_request
        cancel_all_request refresh_all_schedules_request job_count_request get_job_info_request
        set_min_valid_request refresh_on_core
    public_call-SameHold (add_job_command schedule options callback) i =
        if-allocated i (callback_given p q callback) _ _
          (when_running-SameHold (number (failure not_initialized))
            (add_checked p q exchange now schedule options callback) i
            (add_checked-SameHold schedule options callback i))
          (SameHold-refl i)
    public_call-SameHold (cancel_job_command job_id) i =
        change-SameHold (cancel_job_command job_id) (λ c. cancel_job p c job_id) i
    public_call-SameHold (pause_job_command job_id) i =
        change-SameHold (pause_job_command job_id) (λ c. pause_job p c job_id) i
    public_call-SameHold (resume_job_command job_id) i =
        change-SameHold (resume_job_command job_id) (λ c. resume_job p c job_id now) i
    public_call-SameHold cancel_all_command i = change-SameHold cancel_all_command (cancel_all p) i
    public_call-SameHold refresh_all_schedules_command i =
        let on_core = refresh_on_core p q outside now in
        when_running-SameHold (done (failure not_initialized))
          (request p q exchange refresh_all_schedules_command on_core) i
          (request-SameHold exchange refresh_all_schedules_command on_core i
            (ground (arith, drain_manual_events-SameHold outside now i)))
    public_call-SameHold job_count_command i =
        when_started-SameHold _ (request p q exchange job_count_command (count_on_core p q)) i
          (request-SameHold exchange job_count_command (count_on_core p q) i (SameHold-refl i))
    public_call-SameHold (get_job_info_command job_id has_info) i =
        let command = get_job_info_command job_id true in
        when_started-SameHold _ (request p q exchange command (info_on_core p q job_id)) i
          (request-SameHold exchange command (info_on_core p q job_id) i (SameHold-refl i))
    public_call-SameHold (set_min_valid_command min_epoch) i =
        let j = record i { config = record (i.config) { min_valid_epoch_seconds = min_epoch } } in
        let command : ServiceCommand p = set_min_valid_command min_epoch in
        ground
          (arith, request-SameHold exchange command (bound_on_core p q min_epoch) j (ground arith))

  register_executor-SameHold :
      (executor : Option ExecutorRef) (i : Impl p q)
      → SameHold i (register_executor p q executor i).1
  unfolding register_executor
  register_executor-SameHold none i = SameHold-refl i
  register_executor-SameHold (some executor) i = ground arith

  IsReady-IsTidy : (i : Impl p q) → IsReady p q i → IsTidy i
  IsReady-IsTidy i r = ground arith

  IsStopped-IsTidy : (i : Impl p q) → IsStopped p q i → IsTidy i
  IsStopped-IsTidy i s = ground arith

  begin_scheduler-started :
      (answers : BeginAnswers p) (end_answers : EndAnswers p q) (i : Impl p q)
      → i.started ≡ true
      → begin_scheduler p q answers end_answers i ≡ (true, i)
  unfolding begin_scheduler
  begin_scheduler-started answers end_answers i on = ground arith

  end_scheduler-stopped :
      (answers : EndAnswers p q) (wait : Bool) (i : Impl p q)
      → i.started ≡ false
      → end_scheduler p q answers wait i ≡ ([], i)
  unfolding end_scheduler
  end_scheduler-stopped answers wait i off = ground arith

  module _ (date_now : p.World → DateTime × p.World) where
    SameHold-called :
        (i : Impl p q) (s : EspScheduler p q)
        → HoldWhereAllocated i s
        → SameHold i (after p q date_now i s)
    SameHold-called i none v = SameHold-refl i
    SameHold-called i (some j) v = v

    synchronised-SameHold : (i : Impl p q) → SameHold i (request_time_context_refresh p q i)
    unfolding request_time_context_refresh
    synchronised-SameHold i = elim (Option-cases i.service) [
      | inl absent ↦ ground arith
      | inr (s, there) ↦ ground arith
    ]

    begun-IsTidy :
        (answers : BeginAnswers p) (end_answers : EndAnswers p q) (i : Impl p q)
        → IsTidy i
        → IsTidy (begin_scheduler p q answers end_answers i).1
    begun-IsTidy answers end_answers i t = elim (Bool-cases i.started) [
      | inl on ↦ rw (begin_scheduler-started answers end_answers i on) t
      | inr off ↦
          let (ready, stopped) =
            begin_scheduler-IsReady p q answers end_answers i (t.while_stopped off) in
          elim (Bool-cases (begin_scheduler p q answers end_answers i).0) [
            | inl succeeded ↦ IsReady-IsTidy _ (ready succeeded)
            | inr failed ↦ IsStopped-IsTidy _ (stopped failed)
          ]
    ]

    ended-IsTidy :
        (answers : EndAnswers p q) (wait : Bool) (i : Impl p q)
        → IsTidy i
        → IsTidy (end_scheduler p q answers wait i).1
    ended-IsTidy answers wait i t = elim (Bool-cases i.started) [
      | inl on ↦
          IsStopped-IsTidy _
            (end_scheduler-IsStopped p q answers wait i on (t.while_started on).held)
      | inr off ↦ rw (end_scheduler-stopped answers wait i off) t
    ]

    FacadeStep-IsTidy : {i i' : Impl p q} → FacadeStep p q date_now i i' → IsTidy i → IsTidy i'
    unfolding request_time_context_refresh tick_impl
    FacadeStep-IsTidy {i} (begun answers end_answers) t = begun-IsTidy answers end_answers i t
    FacadeStep-IsTidy {i} (ended answers wait) t = ended-IsTidy answers wait i t
    FacadeStep-IsTidy {i} {i'} (called exchange outside now command runs) t =
        IsTidy-SameHold i i'
          (SameHold-called i (public_call p q exchange outside now command (some i)).1
            (public_call-SameHold exchange outside now command i))
          t
    FacadeStep-IsTidy {i} (end_entered on) t = record {
      while_started = λ e. ground (arith, t.while_started on);
      while_stopped = λ off. ground (arith, on, off);
    }
    FacadeStep-IsTidy {i} {i'} (ticked outside rounds now) t =
        IsTidy-SameHold i i' (ground (arith, tick_manual-SameHold outside rounds now i)) t
    FacadeStep-IsTidy {i} {i'} (registered executor) t =
        IsTidy-SameHold i i' (register_executor-SameHold executor i) t
    FacadeStep-IsTidy {i} {i'} synchronised t = IsTidy-SameHold i i' (synchronised-SameHold i) t
    FacadeStep-IsTidy {i} {i'} (completions_posted events) t =
        IsTidy-SameHold i i' (events_arrive-SameHold events i) t
    FacadeStep-IsTidy {i} {i'} (service_moved outside e step) t =
        IsTidy-SameHold i i' (ground arith) t
    FacadeStep-IsTidy {i} {i'} (outside_shifted world) t = IsTidy-SameHold i i' (ground arith) t

    -- In every state that the facade comes to, over any number of starts and ends, each of which is one
    -- step here but for the moment at which `end` begins to drain: while it is started it holds the
    -- service or the event queue that its mode needs, a runtime and a listener; while it is not
    -- started it is not draining and holds none of them, no list of executors and no executor of its own.
    pub FacadeReachable-IsTidy : (i : Impl p q) → FacadeReachable p q date_now i → IsTidy i
    unfolding new_impl
    FacadeReachable-IsTidy _ (made config world) = ground arith
    FacadeReachable-IsTidy i' (moved {i} r step) =
        FacadeStep-IsTidy step (FacadeReachable-IsTidy i r)
