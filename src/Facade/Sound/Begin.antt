-- ===== src/Facade/Sound/Begin.antt =====
-- `begin` and `end` of scheduler.cpp keep the cores sound.
use esp_scheduler.Prelude.{
  ◌≡◌, ◌⊎◌, ◌∷◌, [], if◌then◌else◌, Bool, true, false, not, some, List, refl, arith, inl, inr,
  Option-cases, ltb,
}
use esp_scheduler.Platform.{Platform}
use esp_scheduler.Freertos.{Queues}
use esp_scheduler.Core.Job.{SchedulerEvent}
use esp_scheduler.Core.Calls.{cancel_all, active_invocation_count}
use esp_scheduler.Core.Dispatch.{call_cancel_all, apply_call}
use esp_scheduler.Core.Sound.{IsSound, new_core-IsSound, apply_call-IsSound}
use esp_scheduler.Service.{SchedulerService, new_service, begin_service}
use esp_scheduler.Service.Reach.{begin_service-core}
use esp_scheduler.Facade.{
  Impl, Outside, is_background, start_executors, stop_executors, drain_manual_events,
  register_time_sync_listener, unregister_time_sync_listener,
}
use esp_scheduler.Facade.Lifecycle.{
  BeginAnswers, EndAnswers, events_arrive, wait_for_running, end_background, end_manual,
  end_by_mode, background_service, end_scheduler, connect, start_connected, begin_scheduler,
}
use esp_scheduler.Facade.Sound.{
  CoresSound, keep, if-keeps, if-second, drain_manual_events-CoresSound, start_executors-CoresSound,
}

module _ (p : Platform) (q : Queues) where
  open p use {DateTime}

  pub events_arrive-CoresSound :
      (events : List SchedulerEvent) (i : Impl p q)
      → CoresSound p q i
      → CoresSound p q (events_arrive p q events i)
  unfolding events_arrive
  events_arrive-CoresSound events i v = elim (Option-cases i.event_queue) [
    | inl absent ↦ rw (absent, events_arrive) v
    | inr (w, there) ↦ rw (there, events_arrive) (keep p q v refl refl)
  ]

  wait_for_running-CoresSound :
      (outside : Outside p) (polls : List (DateTime × List SchedulerEvent)) (i : Impl p q)
      → CoresSound p q i
      → CoresSound p q (wait_for_running p q outside polls i)
  unfolding wait_for_running
  wait_for_running-CoresSound outside [] i v = v
  wait_for_running-CoresSound outside ((now, events) ∷ rest) i v =
      if-keeps (CoresSound p q) (ltb 0 (active_invocation_count p i.manual_core)) _ _
        (wait_for_running-CoresSound outside rest
          (drain_manual_events p q outside now (events_arrive p q events i))
          (drain_manual_events-CoresSound p q outside now (events_arrive p q events i)
            (events_arrive-CoresSound events i v)))
        v

  end_manual-CoresSound :
      (answers : EndAnswers p q) (wait : Bool) (i : Impl p q)
      → CoresSound p q i
      → CoresSound p q (end_manual p q answers wait i)
  unfolding end_manual stop_executors apply_call
  end_manual-CoresSound answers wait i v =
      let canceled = record i { manual_core = (cancel_all p i.manual_core).1 } in
      let v' : CoresSound p q canceled = record {
        manual_sound = apply_call-IsSound p i.manual_core call_cancel_all v.manual_sound;
        service_is_sound = v.service_is_sound;
      } in
      let waited =
        if wait then wait_for_running p q answers.outside answers.polls canceled else canceled in
      let v'' : CoresSound p q waited =
        if-keeps (CoresSound p q) wait _ _
          (wait_for_running-CoresSound answers.outside answers.polls canceled v') v' in
      keep p q v'' refl refl

  end_by_mode-CoresSound :
      (answers : EndAnswers p q) (wait : Bool) (i : Impl p q)
      → CoresSound p q i
      → CoresSound p q (end_by_mode p q answers wait i).1
  unfolding end_by_mode end_background stop_executors
  end_by_mode-CoresSound answers wait i v = elim (Option-cases (background_service p q i)) [
    | inl absent ↦ rw (absent, end_by_mode) (end_manual-CoresSound answers wait i v)
    | inr (s, there) ↦
        rw (there, end_by_mode) (record { manual_sound = v.manual_sound; service_is_sound = tt })
  ]

  pub end_scheduler-CoresSound :
      (answers : EndAnswers p q) (wait : Bool) (i : Impl p q)
      → CoresSound p q i
      → CoresSound p q (end_scheduler p q answers wait i).1
  unfolding end_scheduler unregister_time_sync_listener
  end_scheduler-CoresSound answers wait i v =
      let silent = unregister_time_sync_listener p q (record i { draining = true }) in
      if-second p q (not i.started) _ _ v
        (keep p q (end_by_mode-CoresSound answers wait silent (keep p q v refl refl)) refl refl)

  -- The service that `begin` makes.
  abbrev begun_service : BeginAnswers p → Impl p q → SchedulerService p q
  begun_service answers i =
      (begin_service p q answers.task_support answers.created (
        new_service p q i.config.service_config i.config.min_valid_epoch_seconds i.context
          answers.service_world)).1

  connect-cores :
      (answers : BeginAnswers p) (i i' : Impl p q)
      → connect p q answers i ≡ some i'
      → (i'.manual_core ≡ i.manual_core)
        × ((i'.service ≡ i.service) ⊎ (i'.service ≡ some (begun_service answers i)))
  unfolding connect
  connect-cores answers i i' e = ground arith

  begun_service-IsSound :
      (answers : BeginAnswers p) (i : Impl p q) → IsSound p (begun_service answers i).core
  unfolding new_service
  begun_service-IsSound answers i =
      let s =
        new_service p q i.config.service_config i.config.min_valid_epoch_seconds i.context
          answers.service_world in
      rw (begin_service-core p q answers.task_support answers.created s)
        (new_core-IsSound p i.config.min_valid_epoch_seconds answers.service_world)

  connect-CoresSound :
      (answers : BeginAnswers p) (i i' : Impl p q)
      → connect p q answers i ≡ some i'
      → CoresSound p q i
      → CoresSound p q i'
  connect-CoresSound answers i i' e v =
      let (same_core, service) = connect-cores answers i i' e in
      record {
        manual_sound = rw same_core v.manual_sound;
        service_is_sound = elim service [
          | inl same_service ↦ rw same_service v.service_is_sound
          | inr begun ↦ rw begun (begun_service-IsSound answers i)
        ];
      }

  start_connected-CoresSound :
      (answers : BeginAnswers p) (end_answers : EndAnswers p q) (i : Impl p q)
      → CoresSound p q i
      → CoresSound p q (start_connected p q answers end_answers i).1
  unfolding start_connected register_time_sync_listener
  start_connected-CoresSound answers end_answers i v =
      let (begun, filled) =
        start_executors p q answers.outside answers.allocated (record i { started = true }) in
      let good : CoresSound p q filled =
        start_executors-CoresSound p q answers.outside answers.allocated
          (record i { started = true }) (keep p q v refl refl) in
      let (listens, registered) = register_time_sync_listener p q answers.listener_id filled in
      let good' : CoresSound p q registered = keep p q good refl refl in
      if-second p q (not begun) _ _ (end_scheduler-CoresSound end_answers false filled good) (
        if-second p q (not listens) _ _
          (end_scheduler-CoresSound end_answers false registered good') (keep p q good' refl refl))

  pub begin_scheduler-CoresSound :
      (answers : BeginAnswers p) (end_answers : EndAnswers p q) (i : Impl p q)
      → CoresSound p q i
      → CoresSound p q (begin_scheduler p q answers end_answers i).1
  unfolding begin_scheduler
  begin_scheduler-CoresSound answers end_answers i v = elim (Option-cases (connect p q answers i)) [
    | inl failed ↦
        rw (failed, begin_scheduler)
          (if-second p q i.started _ _ v (
            if-second p q (not answers.runtime_allocated) _ _ (keep p q v refl refl) (
              if-keeps (CoresSound p q) (is_background i.config.mode) _ _
                (record { manual_sound = v.manual_sound; service_is_sound = tt })
                (keep p q v refl refl))))
    | inr (i', connected) ↦
        rw (connected, begin_scheduler)
          (if-second p q i.started _ _ v (
            if-second p q (not answers.runtime_allocated) _ _ (keep p q v refl refl) (
              start_connected-CoresSound answers end_answers i'
                (connect-CoresSound answers i i' connected v))))
  ]
