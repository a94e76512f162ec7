-- ===== src/Facade/Modes.antt =====
-- What scheduler.cpp and service/scheduler_service.cpp do alike, and executors by their ids.
use esp_scheduler.Prelude.{
  ◌∷◌, ◌++◌, ◌≡◌, ◌<◌, if◌then◌else◌, [], ℕ, true, some, List, suc, ap, ◌∙◌, refl, sym, arith,
  length, get_or,
}
use mathlib.Core.List.{append_assoc, append-nil}
use esp_scheduler.Platform.{Platform}
use esp_scheduler.Freertos.{Queues}
use esp_scheduler.Core.Array.{push_back_lem, clear}
use esp_scheduler.Core.Job.{success}
use esp_scheduler.Core.Calls.{refresh_all_schedules}
use esp_scheduler.Core.Dispatch.{Executors}
use esp_scheduler.Service.{SchedulerService}
use esp_scheduler.Service
use esp_scheduler.Facade.{
  Impl, Outside, Allocated, ExecutorRef, worker_pool_executor, esp_worker_adapter,
  dedicated_task_executor, is_worker_pool, executor_for, push_executor, push_executors,
  start_executors, register_executor, refresh_time_context_if_needed,
}

module _ (p : Platform) (q : Queues) where
  open p use {DateTime}

  -- The service and the facade, which keep the same three variables, agree on when a new local day or
  -- a request calls for a refresh: from equal variables they come to equal ones, and the service
  -- refreshes the schedules of its core exactly if the facade's method answers that it should.
  pub refresh_time_context-agrees :
      (date_now : p.World → DateTime × p.World) (executors : Executors p) (now : DateTime)
      (s : SchedulerService p q) (i : Impl p q)
      → s.context ≡ i.context
      → let (refresh, i') = refresh_time_context_if_needed p q now i in
        let s' = Service.refresh_time_context_if_needed p q date_now executors now s in
        (s'.context ≡ i'.context)
        × (s'.core ≡ (if refresh then (refresh_all_schedules p s.core now).1 else s.core))
  unfolding refresh_time_context_if_needed Service.refresh_time_context_if_needed
  refresh_time_context-agrees date_now executors now s i same = ground arith

  -- Pushes that all find memory leave the executors in order behind those that were there.
  push_executors_lem :
      (es : List ExecutorRef) (i : Impl p q)
      → (push_executors p q es i).0 ≡ true
      → (push_executors p q es i).1.executors.items ≡ i.executors.items ++ es
  unfolding push_executors push_executor
  push_executors_lem [] i h = sym (append-nil i.executors.items)
  push_executors_lem (e ∷ es) i h =
      let i' = (push_executor p q e i).1 in
      let pushed = push_back_lem p p.size_of_pointer e i.executors i.manual_core.world in
      ground (arith, push_executors_lem es i', pushed, append_assoc i.executors.items (e ∷ []) es)

  -- The executor of the default backend.
  abbrev pub own_executor : Impl p q → ExecutorRef
  own_executor i =
      if is_worker_pool i.config.default_async_backend
      then worker_pool_executor
      else esp_worker_adapter

  start_executors_lem :
      (outside : Outside p) (allocated : Allocated) (i : Impl p q)
      → (start_executors p q outside allocated i).0 ≡ true
      → (start_executors p q outside allocated i).1.executors.items
        ≡ own_executor i ∷ dedicated_task_executor ∷ i.external_executors.items
  unfolding start_executors clear
  start_executors_lem outside allocated i h =
      let pool = is_worker_pool i.config.default_async_backend in
      let backed = record i {
        inline_dispatch = allocated.inline_allocated;
        dedicated_task = allocated.dedicated_allocated;
        worker_pool = if pool then allocated.backend_allocated else i.worker_pool;
        esp_worker = if pool then i.esp_worker else allocated.backend_allocated;
        executors = clear i.executors;
      } in
      let own = own_executor i ∷ dedicated_task_executor ∷ i.external_executors.items in
      ground (arith, push_executors_lem own backed)

  register_executor_lem :
      (e : ExecutorRef) (i : Impl p q) (id : ℕ)
      → length i.external_executors.items < 254
      → (register_executor p q (some e) i).0 ≡ success id
      → (id ≡ suc (suc (length i.external_executors.items)))
        × ((register_executor p q (some e) i).1.external_executors.items
            ≡ i.external_executors.items ++ (e ∷ []))
  unfolding register_executor
  register_executor_lem e i id few given =
      let pushed = push_back_lem p p.size_of_pointer e i.external_executors i.manual_core.world in
      ground (arith, pushed)

  get_or-middle :
      (xs ys : List ExecutorRef) (e d : ExecutorRef)
      → (get_or (xs ++ (e ∷ []) ++ ys) (length xs) d ≡ e)
        × (length xs < length (xs ++ (e ∷ []) ++ ys))
  get_or-middle [] ys e d = (refl, omega arith)
  get_or-middle (x ∷ xs) ys e d =
      let (found, inside) = get_or-middle xs ys e d in (found, omega arith)

  -- An executor that was registered as one of the first 254 gets an id by which every later start
  -- that succeeds resolves to it, whichever executors were registered after it.
  pub register_executor-executor_for :
      (outside : Outside p) (allocated : Allocated) (e : ExecutorRef) (i j : Impl p q) (id : ℕ)
      (later : List ExecutorRef)
      → length i.external_executors.items < 254
      → (register_executor p q (some e) i).0 ≡ success id
      → j.external_executors.items
        ≡ (register_executor p q (some e) i).1.external_executors.items ++ later
      → (start_executors p q outside allocated j).0 ≡ true
      → executor_for p q (start_executors p q outside allocated j).1 id ≡ some e
  unfolding executor_for
  register_executor-executor_for outside allocated e i j id later few given follows begun =
      let items = i.external_executors.items in
      let (number, registered) = register_executor_lem e i id few given in
      let all = start_executors_lem outside allocated j begun in
      let (found, inside) = get_or-middle items later e worker_pool_executor in
      let externals : j.external_executors.items ≡ items ++ (e ∷ []) ++ later =
        follows ∙ ap (λ l. l ++ later) registered in
      rw (all, executor_for) (rw (number, externals) (ground (arith, found, inside)))
