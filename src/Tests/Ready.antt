-- ===== src/Tests/Ready.antt =====
-- The facade in manual mode on the sample platform: begun, and ended again.
use esp_scheduler.Prelude.{◌≡◌, [], refl, true, false, some, arith}
use esp_scheduler.Tests.Sample.{sample}
use esp_scheduler.Tests.Queues.{list_queues}
use esp_scheduler.Tests.Executor.{any_task}
use esp_scheduler.Facade.Sound.Reach.{made, moved, begun}
use esp_scheduler.Facade.Ready.Reach.{IsTidy, FacadeReachable-IsTidy}
use esp_scheduler.Tests.Facade.{manual_config, fresh_impl, outside, all_allocated}
use esp_scheduler.Tests.Service.{morning}
use esp_scheduler.Facade.{Impl, new_impl}
use esp_scheduler.Facade.Background.{served_at_once}
use esp_scheduler.Facade.Lifecycle.{BeginAnswers, EndAnswers, begin_scheduler, end_scheduler}
use esp_scheduler.Facade.Ready.{
  IsReady, IsStopped, HoldsMode, begin_scheduler-IsReady, end_scheduler-IsStopped,
}

abbrev pub all_well : BeginAnswers sample
all_well = record {
  runtime_allocated = true;
  service_allocated = true;
  created = record { commands_created = true; events_created = true; set_created = true };
  task_support = any_task;
  service_world = 20;
  event_queue_created = true;
  allocated = all_allocated;
  listener_id = 3;
  outside = outside;
}

abbrev pub at_end : EndAnswers sample list_queues
at_end = record {
  exchange = served_at_once sample list_queues morning;
  service_runs = λ s. s;
  polls = [];
  outside = outside;
}

fresh_impl-IsStopped : IsStopped sample list_queues fresh_impl
unfolding new_impl
fresh_impl-IsStopped = record {
  not_started = refl;
  not_draining = refl;
  no_service = refl;
  no_event_queue = refl;
  no_runtime = refl;
  no_executors = refl;
  no_inline_dispatch = refl;
  no_worker_pool = refl;
  no_esp_worker = refl;
  no_dedicated_task = refl;
  no_listener = refl;
}

begin_scheduler-IsReady_example :
    let (succeeded, i') = begin_scheduler sample list_queues all_well at_end fresh_impl in
    (succeeded ≡ true → IsReady sample list_queues i')
    × (succeeded ≡ false → IsStopped sample list_queues i')
begin_scheduler-IsReady_example =
    begin_scheduler-IsReady sample list_queues all_well at_end fresh_impl fresh_impl-IsStopped

abbrev pub running_impl : Impl sample list_queues
running_impl = record fresh_impl { event_queue = some (16, []); started = true }

running_impl-HoldsMode : HoldsMode sample list_queues running_impl
unfolding new_impl
running_impl-HoldsMode = record { in_manual = λ e. (refl, refl); in_background = λ e. ground arith }

end_scheduler-IsStopped_example :
    IsStopped sample list_queues (end_scheduler sample list_queues at_end true running_impl).1
end_scheduler-IsStopped_example =
    end_scheduler-IsStopped sample list_queues at_end true running_impl refl running_impl-HoldsMode

FacadeReachable-IsTidy_example :
    IsTidy sample list_queues (begin_scheduler sample list_queues all_well at_end fresh_impl).1
FacadeReachable-IsTidy_example =
    FacadeReachable-IsTidy sample list_queues morning
      (begin_scheduler sample list_queues all_well at_end fresh_impl).1
      (moved (made manual_config 20) (begun all_well at_end))
