-- ===== src/Executor/Completion.antt =====
-- How an executor reports that a job has finished: `postCompletion`, which worker_pool_executor.cpp,
-- dedicated_task_executor.cpp and esp_worker_executor.cpp each have in the same words, and the two
-- executors that start a task for each invocation.
use esp_scheduler.Prelude.{if◌then◌else◌, Bool, false, not, Option, none, some}
use esp_scheduler.Freertos.{Queues}
use esp_scheduler.Executor.Task.{TaskSupport, create_task_pinned}
use esp_scheduler.Core.Job.{JobInvocation, SchedulerEvent}

-- `SchedulerExecutorRuntime`, with the event queue that it points to.
pub record ExecutorRuntime (q : Queues) : Type 0 where
  pub accepting : Bool
  pub event_queue : Option (q.Queue SchedulerEvent)

abbrev pub job_finished : JobInvocation → SchedulerEvent
job_finished invocation = record {
  job_id = invocation.job_id;
  generation = invocation.generation;
  slot_index = invocation.slot_index;
}

module _ (q : Queues) where
  -- Whether the event is in the queue, which no caller looks at.
  unfoldable pub post_completion :
      Option (ExecutorRuntime q) → JobInvocation → Bool × Option (ExecutorRuntime q)
  post_completion none invocation = (false, none)
  post_completion (some r) invocation =
      if not r.accepting then (false, some r) else elim r.event_queue [
        | none ↦ (false, some r)
        | some w ↦
            let (sent, w') = q.send SchedulerEvent (job_finished invocation) w in
            (sent, some (record r { event_queue = some w' }))
      ]

  -- `DedicatedTaskExecutor::submit`: a context is allocated, and a task created for it.
  unfoldable pub submit_dedicated : TaskSupport → Bool → JobInvocation → Bool
  unfolding create_task_pinned
  submit_dedicated support context_allocated invocation =
      if not context_allocated
      then false
      else (create_task_pinned support invocation.dedicated_task.stack_size
          invocation.dedicated_task.use_psram_stack).0

  -- `DedicatedTaskExecutor::taskEntry`, and what `ESPWorkerExecutorAdapter::submit` gives to the
  -- worker: after the callback.
  unfoldable pub task_entry :
      Option (ExecutorRuntime q) → JobInvocation → Option (ExecutorRuntime q)
  unfolding post_completion
  task_entry r invocation = (post_completion r invocation).1
