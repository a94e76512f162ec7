-- ===== src/Compat/Queries.antt =====
-- The tracked jobs of compat/v1_compat.cpp: `pruneTrackedJobs` and `getJobInfo` by index.
use esp_scheduler.Prelude.{◌+◌, ◌∷◌, ◌==◌, if◌then◌else◌, [], ℕ, not, Option, none, some, List}
use esp_scheduler.Platform.{Platform}
use esp_scheduler.Freertos.{Queues}
use esp_scheduler.Core.Job.{JobInfo, success}
use esp_scheduler.Service.Commands.{Reply, informed}
use esp_scheduler.Facade.Background.{Exchange}
use esp_scheduler.Facade.Requests.{EspScheduler, get_job_info_request}
use esp_scheduler.Compat.{EspSchedulerV1Compat, SchedulerV1JobInfo, mode_of, is_ok}

module _ (p : Platform) (q : Queues) where
  -- The loop of `pruneTrackedJobs`: the ids that `getJobInfo` still answers for.
  unfoldable pub active_ids : Exchange p q → List ℕ → EspScheduler p q → List ℕ × EspScheduler p q
  unfolding get_job_info_request
  active_ids exchange [] s = ([], s)
  active_ids exchange (id ∷ ids) s =
      let (reply, s') = get_job_info_request p q exchange id s in
      let (active, s'') = active_ids exchange ids s' in
      (if is_ok p q reply then id ∷ active else active, s'')

  unfoldable pub prune_tracked_jobs :
      Exchange p q → EspSchedulerV1Compat p q → EspSchedulerV1Compat p q
  unfolding active_ids
  prune_tracked_jobs exchange w =
      let (active, s) = active_ids exchange w.tracked_job_ids w.scheduler in
      record w { tracked_job_ids = active; scheduler = s }

  abbrev pub v1_info : JobInfo p → SchedulerV1JobInfo p
  v1_info info = record {
    id = info.id;
    enabled = not info.paused;
    mode = mode_of info.dispatch;
    schedule = info.schedule;
    next_run_utc = info.next_run_utc;
  }

  abbrev pub told : Reply p → Option (JobInfo p)
  told (informed (success t) info) = info
  told _ = none

  -- The loop of `getJobInfo`, with the number of known jobs passed.
  unfoldable pub info_at :
      Exchange p q
      → ℕ
      → ℕ
      → List ℕ
      → EspScheduler p q
      → Option (SchedulerV1JobInfo p) × EspScheduler p q
  unfolding get_job_info_request
  info_at exchange index current [] s = (none, s)
  info_at exchange index current (id ∷ ids) s =
      let (reply, s') = get_job_info_request p q exchange id s in
      elim (told reply) [
        | none ↦ info_at exchange index current ids s'
        | some info ↦
            let later = info_at exchange index (current + 1) ids s' in
            if current == index then (some (v1_info info), s') else later
      ]

  -- `getJobInfo`: `none` is false.
  unfoldable pub get_job_info_v1 :
      Exchange p q
      → ℕ
      → EspSchedulerV1Compat p q
      → Option (SchedulerV1JobInfo p) × EspSchedulerV1Compat p q
  unfolding prune_tracked_jobs info_at
  get_job_info_v1 exchange index w =
      let pruned = prune_tracked_jobs exchange w in
      let (info, s) = info_at exchange index 0 pruned.tracked_job_ids pruned.scheduler in
      (info, record pruned { scheduler = s })
