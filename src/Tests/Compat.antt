-- ===== src/Tests/Compat.antt =====
-- The wrapper for version 1 over a running facade, deinitialised.
use esp_scheduler.Prelude.{[], ◌∷◌, some, none}
use esp_scheduler.Tests.Sample.{sample}
use esp_scheduler.Tests.Queues.{list_queues}
use esp_scheduler.Tests.Service.{morning}
use esp_scheduler.Tests.Ready.{at_end, running_impl}
use esp_scheduler.Core.Job.{default_task_options}
use esp_scheduler.Facade.Background.{served_at_once}
use esp_scheduler.Compat.{EspSchedulerV1Compat, deinit}
use esp_scheduler.Compat.Deinit.{IsInert, deinit-IsInert}

abbrev wrapper : EspSchedulerV1Compat sample list_queues
wrapper = record {
  tracked_job_ids = 1 ∷ 2 ∷ [];
  dedicated_task_scratch = default_task_options sample;
  worker_executor_id = none;
  scheduler = some running_impl;
}

deinit-IsInert_example :
    IsInert sample list_queues
      (served_at_once sample list_queues morning)
      500
      (deinit sample list_queues at_end wrapper)
deinit-IsInert_example =
    deinit-IsInert sample list_queues at_end (served_at_once sample list_queues morning) 500 wrapper
