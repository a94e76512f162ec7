-- ===== src/Tests/Executor.antt =====
-- The pool of workers: an invocation is taken and run, and the next one waits.
use esp_scheduler.Prelude.{[], ℕ, true, false, some, none}
use esp_scheduler.Tests.Sample.{sample}
use esp_scheduler.Tests.Queues.{list_queues, list_queues-IsFifo}
use esp_scheduler.Tests.Core.{callback}
use esp_scheduler.Core.Job.{JobInvocation, default_task_options}
use esp_scheduler.Executor.Task.{TaskSupport}
use esp_scheduler.Executor.Completion.{ExecutorRuntime}
use esp_scheduler.Executor.Pool.{WorkerPoolConfig, new_pool, begin_pool}
use esp_scheduler.Executor.Pool.Order.{
  PoolRun, made, moved, submitted, worked, begun, after_submit, after_work, Accounted,
  PoolReachable-Accounted,
}

abbrev pub any_task : TaskSupport
any_task = record {
  can_use_external_stacks = false;
  external_size = 0;
  size_of_stack_type = 4;
  stack_depth_bits = 32;
  create_with_caps = λ stack. true;
  create_pinned = λ stack. true;
}

abbrev pool_config : WorkerPoolConfig
pool_config = record {
  worker_count = 1;
  queue_depth = 8;
  stack_size = 6144;
  use_psram_stack = false;
}

abbrev runtime : ExecutorRuntime list_queues
runtime = record { accepting = true; event_queue = some (16, []) }

abbrev invocation_of : ℕ → JobInvocation
invocation_of id = record {
  job_id = id;
  generation = 1;
  slot_index = 0;
  name = none;
  callback = callback;
  dedicated_task = default_task_options sample;
}

abbrev new_run : PoolRun sample list_queues
new_run = record {
  pool = new_pool sample list_queues pool_config 20;
  accepted = [];
  gone = [];
  ran = [];
  thrown_away = false;
}

abbrev begun_run : PoolRun sample list_queues
begun_run = record new_run {
  pool = (begin_pool sample list_queues any_task (λ i. true) true (some runtime) new_run.pool).1;
}

abbrev one_taken : PoolRun sample list_queues
one_taken = after_work sample list_queues (
    after_submit sample list_queues true (invocation_of 2)
      (after_submit sample list_queues true (invocation_of 1) begun_run))

PoolReachable-Accounted_example : Accounted sample list_queues one_taken
PoolReachable-Accounted_example =
    PoolReachable-Accounted sample list_queues list_queues-IsFifo one_taken (
      moved
        (moved
          (moved (moved (made pool_config 20) (begun any_task (λ i. true) true (some runtime)))
            (submitted true (invocation_of 1)))
          (submitted true (invocation_of 2)))
        worked)
