-- ===== src/Service/Commands.antt =====
-- The commands of service/scheduler_commands.h and .cpp, which carry a call from another task to
-- the one that owns the core. An object of a command class is its fields, by a constructor for each
-- class; its `result` is a reply.
use esp_scheduler.Prelude.{ℕ, Bool, true, false, Option, none, some, ℤ}
use esp_scheduler.Platform.{Platform}
use esp_scheduler.Schedule.Spec.{ScheduleSpec}
use esp_scheduler.Core.Job.{
  JobOptions, CallbackRef, JobInfo, SchedulerError, SchedulerResult, success, failure,
  not_initialized, not_found,
}
use esp_scheduler.Core.Scheduler.{Core, set_min_valid_unix_seconds}
use esp_scheduler.Core.Calls.{
  cancel_job, pause_job, resume_job, cancel_all, refresh_all_schedules, job_count, get_job_info,
}
use esp_scheduler.Core.AddJob.{add_job}
use esp_scheduler.Core.Dispatch.{
  call_add, call_cancel, call_pause, call_resume, call_cancel_all, call_refresh, apply_call,
}
use esp_scheduler.Core.Sound.{IsSound, apply_call-IsSound, set_min_valid-IsSound}

-- `get_job_info_command` says whether its pointer `info` is set.
pub data ServiceCommand (p : Platform) : Type 0 where
  add_job_command : ScheduleSpec p → JobOptions → CallbackRef → ServiceCommand p
  cancel_job_command : ℕ → ServiceCommand p
  pause_job_command : ℕ → ServiceCommand p
  resume_job_command : ℕ → ServiceCommand p
  cancel_all_command : ServiceCommand p
  refresh_all_schedules_command : ServiceCommand p
  job_count_command : ServiceCommand p
  get_job_info_command : ℕ → Bool → ServiceCommand p
  set_min_valid_command : ℤ → ServiceCommand p

-- The `result` of a command. `informed` has what was written through `info`, if anything.
pub data Reply (p : Platform) : Type 0 where
  number : SchedulerResult ℕ → Reply p
  done : SchedulerResult (Unit {0}) → Reply p
  informed : SchedulerResult (Unit {0}) → Option (JobInfo p) → Reply p

module _ (p : Platform) where
  open p use {DateTime}

  -- `failure(error)`, of the type of the command's result.
  unfoldable pub failed_with : SchedulerError → ServiceCommand p → Reply p
  failed_with error (add_job_command schedule options callback) = number (failure error)
  failed_with error (cancel_job_command job_id) = done (failure error)
  failed_with error (pause_job_command job_id) = done (failure error)
  failed_with error (resume_job_command job_id) = done (failure error)
  failed_with error cancel_all_command = done (failure error)
  failed_with error refresh_all_schedules_command = done (failure error)
  failed_with error job_count_command = number (failure error)
  failed_with error (get_job_info_command job_id has_info) = informed (failure error) none
  failed_with error (set_min_valid_command min_epoch) = done (failure error)

  -- The `result` that the classes declare.
  unfoldable pub new_result : ServiceCommand p → Reply p
  unfolding failed_with
  new_result = failed_with not_initialized

  -- `execute`, at the time that `date.now()` answers.
  unfoldable pub execute : ServiceCommand p → DateTime → Core p → Reply p × Core p
  execute (add_job_command schedule options callback) now c =
      let (result, c') = add_job p c schedule options callback now in (number result, c')
  execute (cancel_job_command job_id) now c =
      let (result, c') = cancel_job p c job_id in (done result, c')
  execute (pause_job_command job_id) now c =
      let (result, c') = pause_job p c job_id in (done result, c')
  execute (resume_job_command job_id) now c =
      let (result, c') = resume_job p c job_id now in (done result, c')
  execute cancel_all_command now c = let (result, c') = cancel_all p c in (done result, c')
  execute refresh_all_schedules_command now c =
      let (result, c') = refresh_all_schedules p c now in (done result, c')
  execute job_count_command now c = (number (job_count p c), c)
  execute (get_job_info_command job_id false) now c = (informed (failure not_found) none, c)
  execute (get_job_info_command job_id true) now c =
      let (result, info) = get_job_info p c job_id in (informed result (some info), c)
  execute (set_min_valid_command min_epoch) now c =
      (done (success tt), set_min_valid_unix_seconds p c min_epoch)

  pub execute-IsSound :
      (command : ServiceCommand p) (now : DateTime) (c : Core p)
      → IsSound p c
      → IsSound p (execute command now c).1
  unfolding execute apply_call
  execute-IsSound (add_job_command schedule options callback) now c s =
      apply_call-IsSound p c (call_add schedule options callback now) s
  execute-IsSound (cancel_job_command job_id) now c s =
      apply_call-IsSound p c (call_cancel job_id) s
  execute-IsSound (pause_job_command job_id) now c s = apply_call-IsSound p c (call_pause job_id) s
  execute-IsSound (resume_job_command job_id) now c s =
      apply_call-IsSound p c (call_resume job_id now) s
  execute-IsSound cancel_all_command now c s = apply_call-IsSound p c call_cancel_all s
  execute-IsSound refresh_all_schedules_command now c s =
      apply_call-IsSound p c (call_refresh now) s
  execute-IsSound job_count_command now c s = s
  execute-IsSound (get_job_info_command job_id false) now c s = s
  execute-IsSound (get_job_info_command job_id true) now c s = s
  execute-IsSound (set_min_valid_command min_epoch) now c s = set_min_valid-IsSound p c min_epoch s
