-- ===== src/Core/Indexed/Run.antt =====
-- The event side of core/scheduler_core.cpp keeps the index well formed:
-- calls made by callbacks, draining, pruning and retries.
use esp_scheduler.Prelude.{◌≡◌, ◌∙◌, ◌∷◌, [], ℕ, zero, suc, refl, false, List, arith, length}
use esp_scheduler.Platform.{Platform}
use esp_scheduler.Core.Scheduler.{Core, job_at}
use esp_scheduler.Core.Dispatch.{
  CoreCall, call_add, call_cancel, call_pause, call_resume, call_cancel_all, call_refresh,
  apply_call, apply_calls, retry_later,
}
use esp_scheduler.Core.Due.{
  drain_one, drain_rounds, drain_pending_schedules, pop_due, prune_rounds,
  prune_invalid_due_entries,
}
use esp_scheduler.Core.Array.{last_or, pop_back}
use esp_scheduler.Core.Indexed.{
  Indexed, push_due_or_clear-index, reschedule-index, cancel_job-Indexed, pause_job-Indexed,
  resume_job-Indexed, cancel_all-Indexed, refresh_all_schedules-Indexed,
}
use esp_scheduler.Core.Indexed.Add.{add_job-Indexed}

module _ (p : Platform) where
  open p use {DateTime}

  pub apply_call-Indexed :
      (c : Core p) (call : CoreCall p) → Indexed p c → Indexed p (apply_call p c call)
  unfolding apply_call
  apply_call-Indexed c (call_add schedule options callback now) v =
      add_job-Indexed p c schedule options callback now v
  apply_call-Indexed c (call_cancel id) v = cancel_job-Indexed p c id v
  apply_call-Indexed c (call_pause id) v = pause_job-Indexed p c id v
  apply_call-Indexed c (call_resume id now) v = resume_job-Indexed p c id now v
  apply_call-Indexed c call_cancel_all v = cancel_all-Indexed p c v
  apply_call-Indexed c (call_refresh now) v = refresh_all_schedules-Indexed p c now v

  pub apply_calls-Indexed :
      (calls : List (CoreCall p)) (c : Core p) → Indexed p c → Indexed p (apply_calls p calls c)
  unfolding apply_calls
  apply_calls-Indexed [] c v = v
  apply_calls-Indexed (call ∷ calls) c v =
      apply_calls-Indexed calls (apply_call p c call) (apply_call-Indexed c call v)

  drain_one-index : (c : Core p) → (drain_one p c).job_index ≡ c.job_index
  unfolding drain_one
  drain_one-index c =
      let slot = last_or c.pending_schedules.items 0 in
      let c' = record c { pending_schedules = pop_back c.pending_schedules } in
      let r = record (job_at p c slot) { pending_schedule = false } in
      ground (arith, reschedule-index p c' slot r r.schedule_from_utc)

  drain_rounds-index : (n : ℕ) (c : Core p) → (drain_rounds p n c).job_index ≡ c.job_index
  unfolding drain_rounds
  drain_rounds-index zero c = refl
  drain_rounds-index (suc n) c = drain_rounds-index n (drain_one p c) ∙ drain_one-index c

  pub drain_pending_schedules-index :
      (c : Core p) (now : DateTime) → (drain_pending_schedules p c now).job_index ≡ c.job_index
  unfolding drain_pending_schedules
  drain_pending_schedules-index c now =
      ground (arith, drain_rounds-index (length c.pending_schedules.items) c)

  prune_rounds-index : (n : ℕ) (c : Core p) → (prune_rounds p n c).job_index ≡ c.job_index
  unfolding prune_rounds
  prune_rounds-index zero c = refl
  prune_rounds-index (suc n) c = ground (arith, prune_rounds-index n (pop_due p c))

  pub prune-Indexed : (c : Core p) → Indexed p c → Indexed p (prune_invalid_due_entries p c)
  unfolding prune_invalid_due_entries
  prune-Indexed c v = rw (prune_rounds-index (length c.due_heap.entries.items) c) v

  pub retry_later-index :
      (c : Core p) (s : ℕ) (now : DateTime) → (retry_later p c s now).job_index ≡ c.job_index
  unfolding retry_later
  retry_later-index c s now = push_due_or_clear-index p _ s
