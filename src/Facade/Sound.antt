-- ===== src/Facade/Sound.antt =====
-- The cores that scheduler.cpp owns, through every call of the facade: the invariant of the core holds in
-- both modes.
pub mod Begin
pub mod Calls
pub mod Reach
use esp_scheduler.Prelude.{
  ◌≡◌, ◌⊎◌, ◌&&◌, ◌||◌, ◌∷◌, [], if◌then◌else◌, ℕ, Bool, true, false, not, Option, none, some, List,
  refl, arith, inl, inr, Bool-cases, Option-cases, ltb, ℤ,
}
use esp_scheduler.Platform.{Platform}
use esp_scheduler.Freertos.{Queues}
use esp_scheduler.Freertos.Drain.{receive_all, enough, receive_all_invariant}
use esp_scheduler.Core.Array.{clear}
use esp_scheduler.Core.Job.{SchedulerEvent, timeout}
use esp_scheduler.Core.Scheduler.{Core}
use esp_scheduler.Core.Calls.{refresh_all_schedules, cancel_all, active_invocation_count}
use esp_scheduler.Core.Dispatch.{
  Executors, call_refresh, call_cancel_all, apply_call, handle_event, dispatch_due,
}
use esp_scheduler.Core.Sound.{
  IsSound, new_core-IsSound, apply_call-IsSound, handle_event-IsSound, dispatch_due-IsSound,
  world-IsSound, set_min_valid-IsSound,
}
use esp_scheduler.Service.Commands.{ServiceCommand, Reply, failed_with}
use esp_scheduler.Service.{SchedulerService, new_service, begin_service, send}
use esp_scheduler.Service.Reach.{begin_service-core, send-core}
use esp_scheduler.Facade.{
  Impl, Outside, Allocated, ExecutorRef, SchedulerConfig, new_impl, is_background, resolver,
  push_executor, push_executors, start_executors, stop_executors, is_worker_pool,
  worker_pool_executor, esp_worker_adapter, dedicated_task_executor, drain_manual_events,
  refresh_time_context_if_needed, register_time_sync_listener, unregister_time_sync_listener,
  register_executor, request_time_context_refresh,
}
use esp_scheduler.Facade.Background.{Exchange, execute_background}
use esp_scheduler.Facade.Lifecycle.{
  BeginAnswers, EndAnswers, events_arrive, wait_for_running, end_background, end_manual,
  end_by_mode, background_service, end_scheduler, connect, start_connected, begin_scheduler,
}
use esp_scheduler.Facade.Tick.{tick_manual}

-- A test, by its two branches.
pub if-keeps :
    {A : Type 0} (Good : A → Type 0) (b : Bool) (x y : A)
    → Good x
    → Good y
    → Good (if b then x else y)
if-keeps Good true x y v w = v
if-keeps Good false x y v w = w

module _ (p : Platform) (q : Queues) where
  open p use {DateTime}

  -- The core of the service, where there is one, and the facade's own core.
  abbrev pub ServiceSound : Option (SchedulerService p q) → Type 0
  ServiceSound none = Unit
  ServiceSound (some s) = IsSound p s.core

  pub record CoresSound (i : Impl p q) : Type 0 where
    pub manual_sound : IsSound p i.manual_core
    pub service_is_sound : ServiceSound i.service

  -- What the service does while a caller waits keeps its core sound, as each of its steps does.
  abbrev pub KeepsSound : Exchange p q → Type 0
  KeepsSound exchange =
      (s : SchedulerService p q) → IsSound p s.core → IsSound p (exchange.while_waiting s).1.core

  -- What a change of the other fields leaves.
  pub keep :
      {i j : Impl p q}
      → CoresSound i
      → j.manual_core ≡ i.manual_core
      → j.service ≡ i.service
      → CoresSound j
  keep v same_core same_service = record {
    manual_sound = rw same_core v.manual_sound;
    service_is_sound = rw same_service v.service_is_sound;
  }

  pub new_impl-CoresSound :
      (config : SchedulerConfig) (world : p.World) → CoresSound (new_impl p q config world)
  unfolding new_impl
  new_impl-CoresSound config world = record {
    manual_sound = new_core-IsSound p config.min_valid_epoch_seconds world;
    service_is_sound = tt;
  }

  pub execute_background-IsSound :
      (exchange : Exchange p q) (command : ServiceCommand p) (s : SchedulerService p q)
      → KeepsSound exchange
      → IsSound p s.core
      → IsSound p (execute_background p q exchange command s).1.core
  unfolding execute_background
  execute_background-IsSound exchange command s keeps v =
      let (sent, s') = send p q (some command) s in
      let queued : IsSound p s'.core = rw (send-core p q (some command) s) v in
      let (reply, s'') = exchange.while_waiting s' in
      let later : IsSound p s''.core = keeps s' queued in
      if-keeps (λ (r : Reply p × SchedulerService p q). IsSound p r.1.core)
        (not exchange.command_allocated) _ _ v
        (if-keeps (λ (r : Reply p × SchedulerService p q). IsSound p r.1.core) (not sent) _ _ queued
          (elim reply
            as (λ o.
              IsSound p
                (elim o as (λ _. Reply p × SchedulerService p q) [
                  | none ↦ (failed_with p timeout command, s'')
                  | some answer ↦ (answer, s'')
                ]).1.core) [ none ↦ later | some answer ↦ later ]))

  pub drain_manual_events-CoresSound :
      (outside : Outside p) (now : DateTime) (i : Impl p q)
      → CoresSound i
      → CoresSound (drain_manual_events p q outside now i)
  unfolding drain_manual_events
  drain_manual_events-CoresSound outside now i v = elim (Option-cases i.event_queue) [
    | inl absent ↦ rw (absent, drain_manual_events) v
    | inr (w, there) ↦
        rw (there, drain_manual_events)
          (record {
            manual_sound =
                receive_all_invariant q (IsSound p)
                  (λ (event : SchedulerEvent). handle_event p (resolver p q outside i) event now)
                  (λ event c. handle_event-IsSound p (resolver p q outside i) event now c)
                  (enough q w) w i.manual_core v.manual_sound;
            service_is_sound = v.service_is_sound;
          })
  ]

  -- Pushing executors moves only the outside of the facade's core.
  push_executors-cores :
      (es : List ExecutorRef) (i : Impl p q)
      → let i' = (push_executors p q es i).1 in
        (i'.manual_core ≡ record (i.manual_core) { world = i'.manual_core.world })
        × (i'.service ≡ i.service)
  unfolding push_executors push_executor
  push_executors-cores [] i = (refl, refl)
  push_executors-cores (e ∷ es) i =
      let i' = (push_executor p q e i).1 in ground (arith, push_executors-cores es i')

  start_executors-cores :
      (outside : Outside p) (allocated : Allocated) (i : Impl p q)
      → let i' = (start_executors p q outside allocated i).1 in
        (i'.manual_core ≡ record (i.manual_core) { world = i'.manual_core.world })
        × (i'.service ≡ i.service)
  unfolding start_executors
  start_executors-cores outside allocated i =
      let pool = is_worker_pool i.config.default_async_backend in
      let backed = record i {
        inline_dispatch = allocated.inline_allocated;
        dedicated_task = allocated.dedicated_allocated;
        worker_pool = if pool then allocated.backend_allocated else i.worker_pool;
        esp_worker = if pool then i.esp_worker else allocated.backend_allocated;
        executors = clear i.executors;
      } in
      let own = if pool then worker_pool_executor else esp_worker_adapter in
      ground (
        arith,
        push_executors-cores (own ∷ dedicated_task_executor ∷ i.external_executors.items) backed,
      )

  pub start_executors-CoresSound :
      (outside : Outside p) (allocated : Allocated) (i : Impl p q)
      → CoresSound i
      → CoresSound (start_executors p q outside allocated i).1
  start_executors-CoresSound outside allocated i v =
      let (same_core, same_service) = start_executors-cores outside allocated i in
      record {
        manual_sound = rw same_core (world-IsSound p i.manual_core _ v.manual_sound);
        service_is_sound = rw same_service v.service_is_sound;
      }

  -- A test between two pairs, by its two branches.
  pub if-second :
      {A : Type 0} (b : Bool) (x y : A × Impl p q)
      → CoresSound x.1
      → CoresSound y.1
      → CoresSound (if b then x else y).1
  if-second true x y v w = v
  if-second false x y v w = w
