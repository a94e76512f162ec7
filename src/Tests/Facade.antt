-- ===== src/Tests/Facade.antt =====
-- The facade on the sample platform: a call in manual mode, calls in background mode, a start.
use esp_scheduler.Prelude.{
  ◌≡◌, ◌≤◌, ◌%◌, [], ℕ, refl, true, false, some, Option, List, arith, pos, if◌then◌else◌,
}
use esp_scheduler.Tests.Sample.{sample}
use esp_scheduler.Tests.Queues.{list_queues, list_queues-IsFifo}
use esp_scheduler.Tests.Core.{inline_only, one_job, started_core}
use esp_scheduler.Tests.Service.{config, morning, two_commands, service_of}
use esp_scheduler.Core.Array.{push_back, clear}
use esp_scheduler.Core.Calls.{refresh_all_schedules}
use esp_scheduler.Service.{SchedulerService}
use esp_scheduler.Service
use esp_scheduler.Service.Commands.{ServiceCommand, cancel_job_command, execute}
use esp_scheduler.Service.{drain_commands}
use esp_scheduler.Executor.Task.{
  TaskSupport, create_task_pinned, has_external_stack_support, is_valid_stack_size,
  create_task_pinned-Valid, stack_passed,
}
use esp_scheduler.Facade.{
  Impl, SchedulerConfig, manual, worker_pool_backend, new_impl, Outside, Allocated,
  external_executor, register_executor, start_executors, executor_for,
  refresh_time_context_if_needed, push_executors, begin_all,
}
use esp_scheduler.Facade.Background.{
  execute_background, served_at_once, after_queued, execute_now, execute_background-execute,
}
use esp_scheduler.Facade.Lifecycle.{running}
use esp_scheduler.Facade.Stopped.{public_call, refusal, public_call-refused, public_call-execute}
use esp_scheduler.Facade.Modes.{refresh_time_context-agrees, register_executor-executor_for}

abbrev pub manual_config : SchedulerConfig
manual_config = record {
  mode = manual;
  min_valid_epoch_seconds = pos 0;
  default_async_backend = worker_pool_backend;
  esp_worker = false;
  service_config = config;
}

abbrev pub fresh_impl : Impl sample list_queues
fresh_impl = new_impl sample list_queues manual_config 20

abbrev started_impl : Impl sample list_queues
started_impl = record fresh_impl { manual_core = one_job; started = true; inline_dispatch = true }

abbrev pub outside : Outside sample
outside = record {
  callback_calls = λ invocation world. ([], world);
  submit = λ executor invocation world. (true, world);
  begins = λ executor. true;
}

abbrev pub all_allocated : Allocated
all_allocated = record {
  inline_allocated = true;
  dedicated_allocated = true;
  backend_allocated = true;
}

execute_background-execute_example :
    let s = service_of started_core two_commands in
    let w : ℕ × List (Option (ServiceCommand sample)) = (16, two_commands) in
    let c = (after_queued sample list_queues morning s w).1 in
    ((execute_background sample list_queues
        (served_at_once sample list_queues morning)
        (cancel_job_command 1)
        s).0
      ≡ (execute_now sample list_queues morning (cancel_job_command 1) c).0)
    × ((execute_background sample list_queues
          (served_at_once sample list_queues morning)
          (cancel_job_command 1)
          s).1.core
        ≡ (execute_now sample list_queues morning (cancel_job_command 1) c).1)
execute_background-execute_example =
    execute_background-execute sample list_queues morning list_queues-IsFifo (cancel_job_command 1)
      (service_of started_core two_commands) (16, two_commands) refl refl

public_call-refused_example :
    public_call sample list_queues
      (served_at_once sample list_queues morning)
      outside
      500
      (cancel_job_command 1)
      (some fresh_impl)
    ≡ (refusal sample list_queues (cancel_job_command 1), some fresh_impl)
unfolding new_impl running
public_call-refused_example =
    public_call-refused sample list_queues (served_at_once sample list_queues morning) outside 500
      (cancel_job_command 1) (some fresh_impl) refl

public_call-execute_example :
    let (reply, c) = execute sample (cancel_job_command 1) 500 one_job in
    public_call sample list_queues
      (served_at_once sample list_queues morning)
      outside
      500
      (cancel_job_command 1)
      (some started_impl)
    ≡ (reply, some (record started_impl { manual_core = c }))
unfolding new_impl
public_call-execute_example =
    public_call-execute sample list_queues (served_at_once sample list_queues morning) outside 500
      (cancel_job_command 1) started_impl refl refl refl refl

refresh_time_context-agrees_example :
    let (refresh, i') = refresh_time_context_if_needed sample list_queues 500 fresh_impl in
    let s = service_of one_job [] in
    let s' = Service.refresh_time_context_if_needed sample list_queues morning inline_only 500 s in
    (s'.context ≡ i'.context)
    × (s'.core ≡ (if refresh then (refresh_all_schedules sample one_job 500).1 else one_job))
unfolding new_impl
refresh_time_context-agrees_example =
    refresh_time_context-agrees sample list_queues morning inline_only 500 (service_of one_job [])
      fresh_impl refl

abbrev with_executor : Impl sample list_queues
with_executor = (register_executor sample list_queues (some (external_executor 77)) fresh_impl).1

register_executor-executor_for_example :
    executor_for sample list_queues
      (start_executors sample list_queues outside all_allocated with_executor).1
      2
    ≡ some (external_executor 77)
unfolding new_impl register_executor start_executors push_back push_executors begin_all clear
register_executor-executor_for_example =
    register_executor-executor_for sample list_queues outside all_allocated (external_executor 77)
      fresh_impl with_executor 2 [] (omega arith) refl refl refl

-- A platform without external stacks.
abbrev no_external_stacks : TaskSupport
no_external_stacks = record {
  can_use_external_stacks = false;
  external_size = 0;
  size_of_stack_type = 4;
  stack_depth_bits = 32;
  create_with_caps = λ stack. true;
  create_pinned = λ stack. true;
}

create_task_pinned-Valid_example :
    (stack_passed no_external_stacks 4096 false ≡ 4096)
    × (1024 ≤ stack_passed no_external_stacks 4096 false)
    × (stack_passed no_external_stacks 4096 false % 4 ≡ 0)
    × (true ≡ true)
    × ((create_task_pinned no_external_stacks 4096 false).1 ≡ false)
    × (false ≡ true → has_external_stack_support no_external_stacks ≡ true)
unfolding create_task_pinned is_valid_stack_size
create_task_pinned-Valid_example =
    create_task_pinned-Valid no_external_stacks 4096 false (omega arith) refl
