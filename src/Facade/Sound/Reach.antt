-- ===== src/Facade/Sound/Reach.antt =====
-- Every state that the facade of scheduler.cpp comes to, in manual and in background mode.
use esp_scheduler.Prelude.{◌≡◌, ℕ, Bool, true, Option, none, some, List}
use esp_scheduler.Platform.{Platform}
use esp_scheduler.Freertos.{Queues}
use esp_scheduler.Core.Job.{SchedulerEvent}
use esp_scheduler.Service.Commands.{ServiceCommand}
use esp_scheduler.Service.{SchedulerService}
use esp_scheduler.Facade.{
  Impl, Outside, ExecutorRef, SchedulerConfig, new_impl, resolver, register_executor,
  request_time_context_refresh,
}
use esp_scheduler.Facade.Background.{Exchange}
use esp_scheduler.Facade.Lifecycle.{
  BeginAnswers, EndAnswers, events_arrive, end_scheduler, begin_scheduler,
}
use esp_scheduler.Service.Reach.{ServiceStep, ServiceSteps}
use esp_scheduler.Facade.Requests.{EspScheduler}
use esp_scheduler.Facade.Tick.{tick_impl}
use esp_scheduler.Facade.Stopped.{public_call}

module _ (p : Platform) (q : Queues) (date_now : p.World → p.DateTime × p.World) where
  open p use {DateTime}

  -- What is left of a facade that was allocated.
  abbrev pub after : Impl p q → EspScheduler p q → Impl p q
  after i none = i
  after i (some j) = j

  -- What happens to a facade: it is started and ended, called, ticked; while a caller waits, its service
  -- takes any steps, and answers or not; `end` begins to drain; executors are registered and
  -- post completions, the time is synchronised, its service takes a step, the outside moves.
  pub data FacadeStep (i : Impl p q) : Impl p q → Type 0 where
    begun :
        (answers : BeginAnswers p) (end_answers : EndAnswers p q)
        → FacadeStep i (begin_scheduler p q answers end_answers i).1
    ended :
        (answers : EndAnswers p q) (wait : Bool) → FacadeStep i (end_scheduler p q answers wait i).1
    called :
        (exchange : Exchange p q) (outside : Outside p) (now : DateTime)
        (command : ServiceCommand p)
        → ((s : SchedulerService p q)
            → ServiceSteps p q date_now (resolver p q outside i) s (exchange.while_waiting s).1)
        → FacadeStep i (after i (public_call p q exchange outside now command (some i)).1)
    end_entered : i.started ≡ true → FacadeStep i (record i { draining = true })
    ticked :
        (outside : Outside p) (rounds : ℕ) (now : DateTime)
        → FacadeStep i (tick_impl p q outside rounds now i)
    registered : (executor : Option ExecutorRef) → FacadeStep i (register_executor p q executor i).1
    synchronised : FacadeStep i (request_time_context_refresh p q i)
    completions_posted : (events : List SchedulerEvent) → FacadeStep i (events_arrive p q events i)
    service_moved :
        {s s' : SchedulerService p q} (outside : Outside p)
        → i.service ≡ some s
        → ServiceStep p q date_now (resolver p q outside i) s s'
        → FacadeStep i (record i { service = some s' })
    outside_shifted :
        (world : p.World)
        → FacadeStep i (record i { manual_core = record (i.manual_core) { world = world } })

  pub data FacadeReachable : Impl p q → Type 0 where
    made :
        (config : SchedulerConfig) (world : p.World) → FacadeReachable (new_impl p q config world)
    moved : {i i' : Impl p q} → FacadeReachable i → FacadeStep i i' → FacadeReachable i'
