-- ===== src/Executor/Pool.antt =====
-- `WorkerPoolExecutor` of executors/worker_pool_executor.cpp: a queue of invocations, and the tasks that
-- take them out. A null pointer in the queue tells a worker to end.
pub mod Order
use esp_scheduler.Prelude.{
  ◌+◌, ◌+ℤ◌, ◌-ℤ◌, ℤ, pos, ◌++◌, ◌∷◌, ◌||◌, ◌==◌, if◌then◌else◌, [], ℕ, zero, suc, Bool, true,
  false, not, Option, none, some, List, length,
}
use esp_scheduler.Platform.{Platform}
use esp_scheduler.Freertos.{Queues}
use esp_scheduler.Freertos.Drain.{receive_all, enough}
use esp_scheduler.Executor.Task.{TaskSupport, create_task_pinned}
use esp_scheduler.Executor.Completion.{ExecutorRuntime, post_completion}
use esp_scheduler.Core.Array.{SchedulerArray, empty_array, push_back, clear}
use esp_scheduler.Core.Job.{JobInvocation, present}

pub record WorkerPoolConfig : Type 0 where
  pub worker_count : ℕ
  pub queue_depth : ℕ
  pub stack_size : ℕ
  pub use_psram_stack : Bool

-- A worker's handle is whether its task was created with capabilities.
pub record WorkerPool (p : Platform) (q : Queues) : Type 0 where
  pub config : WorkerPoolConfig
  pub runtime : Option (ExecutorRuntime q)
  pub queue : Option (q.Queue (Option JobInvocation))
  pub workers : SchedulerArray Bool
  pub started : Bool
  pub workers_running : ℤ
  pub world : p.World

module _ (p : Platform) (q : Queues) where
  unfoldable pub new_pool : WorkerPoolConfig → p.World → WorkerPool p q
  new_pool config world = record {
    config = config;
    runtime = none;
    queue = none;
    workers = empty_array;
    started = false;
    workers_running = pos 0;
    world = world;
  }

  -- `submit`, given whether the item is allocated.
  unfoldable pub submit : Bool → JobInvocation → WorkerPool p q → Bool × WorkerPool p q
  submit item_allocated invocation s = elim s.queue [
    | none ↦ (false, s)
    | some w ↦
        let (sent, w') = q.send (Option JobInvocation) (some invocation) w in
        if not s.started
        then (false, s)
        else if not item_allocated
        then (false, s)
        else (sent, record s { queue = some w' })
  ]

  -- A round of a worker's loop: the invocation that it takes, if any, whose callback it then runs.
  unfoldable pub worker_round : WorkerPool p q → Option JobInvocation × WorkerPool p q
  unfolding post_completion
  worker_round s = elim s.queue [
    | none ↦ (none, s)
    | some w ↦
        let (item, w') = q.receive (Option JobInvocation) w in
        let s' = record s { queue = some w' } in
        elim item [
          | none ↦ (none, s)
          | some none ↦ (none, record s' { workers_running = s.workers_running -ℤ pos 1 })
          | some (some invocation) ↦
              (some invocation, record s' { runtime = (post_completion q s.runtime invocation).1 })
        ]
  ]

  -- The body of the loop of `end` that deletes what waits.
  abbrev pub discard : Option JobInvocation → List JobInvocation → List JobInvocation
  discard none gone = gone
  discard (some invocation) gone = gone ++ (invocation ∷ [])

  unfoldable pub send_sentinels :
      ℕ → q.Queue (Option JobInvocation) → q.Queue (Option JobInvocation)
  send_sentinels zero w = w
  send_sentinels (suc left) w = send_sentinels left (q.send (Option JobInvocation) none w).1

  -- `end` up to the wait: what is deleted unless jobs are to be drained, and a null for each worker.
  unfoldable pub end_workers : Bool → WorkerPool p q → List JobInvocation × WorkerPool p q
  unfolding send_sentinels
  end_workers drain_running_jobs s = elim s.queue [
    | none ↦ ([], s)
    | some w ↦
        let (w', gone) = receive_all q discard (enough q w) w [] in
        let n = length s.workers.items in
        if drain_running_jobs
        then ([], record s { queue = some (send_sentinels n w) })
        else (gone, record s { queue = some (send_sentinels n w') })
  ]

  -- `end` from there: the queue is deleted with what is in it.
  unfoldable pub close_pool : WorkerPool p q → WorkerPool p q
  unfolding clear
  close_pool s = elim s.queue [
    | none ↦ record s { started = false; runtime = none }
    | some w ↦ record s { queue = none; workers = clear s.workers; started = false; runtime = none }
  ]

  module _ (support : TaskSupport) (context_allocated : ℕ → Bool) where
    -- The loop of `begin`, with the workers left and the index of the next.
    unfoldable pub start_workers : ℕ → ℕ → WorkerPool p q → Bool × WorkerPool p q
    unfolding create_task_pinned push_back
    start_workers zero index s = (true, s)
    start_workers (suc left) index s =
        let (created, with_caps) =
          create_task_pinned support s.config.stack_size s.config.use_psram_stack in
        let pushed = push_back p p.size_of_pointer with_caps s.workers s.world in
        let s' = record s { workers = pushed.array; world = pushed.world } in
        let later =
          start_workers left (index + 1)
            (record s' { workers_running = s.workers_running +ℤ pos 1 }) in
        if not (context_allocated index)
        then (false, s)
        else if not created
        then (false, s)
        else if not pushed.ok
        then (false, s')
        else later

    -- `begin`; where a worker cannot be started it calls `end(false)`.
    unfoldable pub begin_pool :
        Bool → Option (ExecutorRuntime q) → WorkerPool p q → Bool × WorkerPool p q
    unfolding start_workers end_workers close_pool clear
    begin_pool queue_created runtime s =
        let w = q.create (Option JobInvocation) s.config.queue_depth in
        let ready = record s {
          runtime = runtime;
          queue = some w;
          workers = clear s.workers;
          workers_running = pos 0;
        } in
        let (ok, filled) = start_workers s.config.worker_count 0 ready in
        if s.started
        then (true, s)
        else if not queue_created
        then (false, record s { runtime = runtime; queue = none })
        else if ok
        then (true, record filled { started = true })
        else (false, close_pool (end_workers false filled).1)
