-- ===== src/Tests/Core.antt =====
-- The scheduler core on the sample platform: a job that runs once, added, paused, canceled, dispatched.
use esp_scheduler.Prelude.{◌≡◌, ◌∷◌, [], ℕ, refl, true, false, none, some, arith, pos}
use esp_scheduler.Tests.Sample.{sample}
use esp_scheduler.Tests.Containers.{one_id}
use esp_scheduler.Schedule.Spec.{once_utc}
use esp_scheduler.Schedule.Calculator.{validate}
use esp_scheduler.Core.AddJob.{add_job}
use esp_scheduler.Core.DueHeap.{push_entries, pop_entries}
use esp_scheduler.Core.DueHeap
use esp_scheduler.Core.IdIndex.{set_id, rehash, next_capacity, home, find_position}
use esp_scheduler.Core.IdIndex
use esp_scheduler.Core.Array.{push_back, pop_back, scheduler_allocate}
use esp_scheduler.Core.Job.{
  callback_valid, assign_name, runs_once, JobOptions, CallbackRef, raw_function, inline,
  skip_if_running, new_job, not_found, success, failure,
}
use esp_scheduler.Core.Scheduler.{
  Core, new_core, job_at, find_job_slot, clock_valid, compute_next_for_job, push_due_or_clear,
  retire_job, clear_scheduling,
}
use esp_scheduler.Core.Calls.{cancel_job, cancel_all, pause_job, get_job_info, job_count}
use esp_scheduler.Core.Dispatch.{
  CoreCall, call_add, Executors, apply_call, dispatch_due, dispatch_one, depth,
}
use esp_scheduler.Core.Due.{next_due_epoch, validate_due_entry}
use esp_scheduler.Core.Dispatch.Depth.Nested.{dispatch_one-depth}
use esp_scheduler.Core.Wakeup.{Wakes, live}
use esp_scheduler.Core.Wakeup.Reach.{
  Reachable, started, stepped, call_made, due_dispatched, Reachable-Wakes,
}
use esp_scheduler.Core.Wakeup.Next.{Earliest, next_due_epoch-Earliest}
use esp_scheduler.Core.Requests.{Found, OthersKept, job_count-cancel_all}
use esp_scheduler.Core.Requests.ById.{get_job_info-pause_job}
use esp_scheduler.Core.Indexed.{Indexed}
use esp_scheduler.Core.Indexed.Reach.{Reachable-Indexed, find_job_slot-cancel_job-Reachable}

-- The inline executor alone, with a callback that calls nothing.
abbrev pub inline_only : Executors sample
inline_only = record {
  inline_executor = true;
  executor_for = λ id. false;
  callback_calls = λ invocation m. ([], m);
  submit = λ id invocation m. (false, m);
}

abbrev pub callback : CallbackRef
callback = record { kind = raw_function; raw_fn = some 1; user_data = 0; owning_fn = none }

abbrev pub options : JobOptions
options = record {
  dispatch = inline;
  overlap = skip_if_running;
  executor_id = 0;
  start_paused = false;
  name = none;
  dedicated_task = none;
}

-- At 08:20, a job for 10:00 today.
abbrev pub at_ten : CoreCall sample
at_ten = call_add (once_utc sample 600) options callback 500

abbrev pub started_core : Core sample
started_core = new_core sample (pos 0) 8

abbrev pub one_job : Core sample
one_job = apply_call sample started_core at_ten

pub one_job-Reachable : Reachable sample inline_only one_job
one_job-Reachable = stepped (started (pos 0) 8) (call_made at_ten)

Reachable-Wakes_example : Wakes sample (dispatch_due sample inline_only 5 600 one_job)
Reachable-Wakes_example =
    Reachable-Wakes sample inline_only (dispatch_due sample inline_only 5 600 one_job)
      (stepped one_job-Reachable (due_dispatched 5 600))

next_due_epoch_example : Earliest sample one_job (next_due_epoch sample one_job).0
next_due_epoch_example =
    next_due_epoch-Earliest sample one_job
      (Reachable-Wakes sample inline_only one_job one_job-Reachable)

next_run_at_ten : (next_due_epoch sample one_job).0 ≡ some (pos 36000)
unfolding next_due_epoch apply_call add_job callback_valid validate once_utc assign_name new_core
    push_back set_id clock_valid compute_next_for_job runs_once rehash next_capacity home
    push_due_or_clear DueHeap.push push_entries DueHeap.empty DueHeap.top validate_due_entry
next_run_at_ten = refl

-- At 08:20 nothing is dispatched, and the job still has its next run.
pub valid_in_the_morning :
    clock_valid sample (dispatch_due sample inline_only 5 500 one_job) 500 ≡ true
unfolding dispatch_due apply_call add_job callback_valid validate once_utc assign_name new_core
    push_back set_id clock_valid compute_next_for_job runs_once rehash next_capacity home
    push_due_or_clear DueHeap.push push_entries DueHeap.empty DueHeap.top DueHeap.pop pop_entries
    validate_due_entry dispatch_one retire_job IdIndex.remove find_position pop_back
valid_in_the_morning = refl

pub live_in_the_morning :
    live sample (job_at sample (dispatch_due sample inline_only 5 500 one_job) 0) ≡ true
unfolding dispatch_due apply_call add_job callback_valid validate once_utc assign_name new_core
    push_back set_id clock_valid compute_next_for_job runs_once rehash next_capacity home
    push_due_or_clear DueHeap.push push_entries DueHeap.empty DueHeap.top DueHeap.pop pop_entries
    validate_due_entry dispatch_one retire_job IdIndex.remove find_position pop_back
live_in_the_morning = refl

-- It runs at 10:00 and is gone then.
runs_and_retires :
    (job_count sample one_job ≡ success 1)
    × (job_count sample (dispatch_due sample inline_only 5 599 one_job) ≡ success 1)
    × (job_count sample (dispatch_due sample inline_only 5 600 one_job) ≡ success 0)
unfolding dispatch_due job_count apply_call add_job callback_valid validate once_utc assign_name
    new_core push_back set_id clock_valid compute_next_for_job runs_once rehash next_capacity home
    push_due_or_clear DueHeap.push push_entries DueHeap.empty DueHeap.top DueHeap.pop pop_entries
    validate_due_entry dispatch_one retire_job IdIndex.remove find_position pop_back
runs_and_retires = (refl, refl, refl)

job_count-cancel_all_example : job_count sample (cancel_all sample one_job).1 ≡ success 0
job_count-cancel_all_example = job_count-cancel_all sample one_job

-- One job under id 7, which runs.
abbrev running_core : Core sample
unfolding new_core new_job
running_core = record started_core {
  jobs = record {
    items =
        record (new_job sample) { occupied = true; id = 7; has_next = true; running_count = 1 }
        ∷ [];
    capacity = 4;
  };
  job_index = one_id;
}

find_job_slot-cancel_job-Reachable_example :
    find_job_slot sample (cancel_job sample one_job 1).1 1 ≡ failure not_found
find_job_slot-cancel_job-Reachable_example =
    find_job_slot-cancel_job-Reachable sample inline_only one_job 1 one_job-Reachable

Reachable-Indexed_example : Indexed sample one_job
Reachable-Indexed_example = Reachable-Indexed sample inline_only one_job one_job-Reachable

-- The job is found before it is canceled.
found_before : find_job_slot sample one_job 1 ≡ success 0
unfolding find_job_slot IdIndex.get find_position apply_call add_job callback_valid validate
    once_utc assign_name new_core push_back set_id clock_valid compute_next_for_job runs_once rehash
    next_capacity home push_due_or_clear DueHeap.push push_entries
found_before = refl

pause_succeeds : (pause_job sample running_core 7).0 ≡ success tt
unfolding pause_job running_core new_core new_job set_id rehash next_capacity home IdIndex.get
    find_position scheduler_allocate find_job_slot clear_scheduling
pause_succeeds = refl

get_job_info-pause_job_example :
    ((get_job_info sample (pause_job sample running_core 7).1 7).0 ≡ success tt)
    × ((get_job_info sample (pause_job sample running_core 7).1 7).1.id ≡ 7)
    × ((get_job_info sample (pause_job sample running_core 7).1 7).1.paused ≡ true)
    × ((get_job_info sample (pause_job sample running_core 7).1 7).1.has_next ≡ false)
    × ((s : ℕ) × Found sample running_core 7 s
        × OthersKept sample s running_core (pause_job sample running_core 7).1)
get_job_info-pause_job_example = get_job_info-pause_job sample running_core 7 pause_succeeds

dispatch_one-depth_example :
    dispatch_one sample inline_only 7 false 0 600 one_job
    ≡ dispatch_one sample inline_only depth false 0 600 one_job
dispatch_one-depth_example =
    dispatch_one-depth sample inline_only 0 7 false 600 one_job (omega arith)

-- Before the clock is valid, two jobs wait.
abbrev waiting_core : Core sample
waiting_core = apply_call sample (apply_call sample (new_core sample (pos 40000) 8) at_ten) at_ten
