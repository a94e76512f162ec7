-- ===== src/Tests/Sound.antt =====
-- A facade in background mode on the sample platform: it is begun, and a job is added, which the service
-- does in a round of its task while the caller waits.
use esp_scheduler.Prelude.{true, some, none, if◌then◌else◌}
use esp_scheduler.Tests.Sample.{sample}
use esp_scheduler.Tests.Queues.{list_queues}
use esp_scheduler.Tests.Core.{options, callback}
use esp_scheduler.Tests.Service.{morning}
use esp_scheduler.Tests.Facade.{manual_config, outside}
use esp_scheduler.Tests.Ready.{all_well, at_end}
use esp_scheduler.Schedule.Spec.{once_utc}
use esp_scheduler.Core.Dispatch.{Executors}
use esp_scheduler.Service.{round}
use esp_scheduler.Service.Commands.{ServiceCommand, add_job_command}
use esp_scheduler.Facade.{Impl, SchedulerConfig, background, new_impl, resolver}
use esp_scheduler.Facade.Background.{Exchange, last_reply}
use esp_scheduler.Facade.Lifecycle.{begin_scheduler}
use esp_scheduler.Facade.Stopped.{public_call}
use esp_scheduler.Facade.Sound.Reach.{after}

abbrev in_background : SchedulerConfig
in_background = record manual_config { mode = background }

abbrev begun_impl : Impl sample list_queues
begun_impl =
    (begin_scheduler sample list_queues all_well at_end
      (new_impl sample list_queues in_background 20)).1

-- The service's task takes a round while a caller waits, and answers from it.
abbrev a_round : Executors sample → Exchange sample list_queues
a_round executors = record {
  command_allocated = true;
  while_waiting = λ s.
      let (replies, waited) = round sample list_queues morning executors 5 s in
      if s.task then (last_reply sample list_queues replies, waited.1) else (none, s);
}

abbrev add_at_ten : ServiceCommand sample
add_at_ten = add_job_command (once_utc sample 600) options callback

abbrev with_job : Impl sample list_queues
with_job =
    after sample list_queues morning begun_impl
      (public_call sample list_queues (a_round (resolver sample list_queues outside begun_impl))
        outside 500 add_at_ten (some begun_impl)).1
