-- ===== src/Core/Requests.antt =====
-- What a request of core/scheduler_core.cpp by job id changes, and what a lookup of that id answers
-- from then on.
pub mod ById
use esp_scheduler.Prelude.{
  ◌+◌, ◌<◌, ◌≡◌, ◌∙◌, ◌≢◌, ◌&&◌, ◌||◌, ◌∷◌, ◌==◌, if◌then◌else◌, [], ℕ, zero, suc, refl, ap, inl,
  inr, Bool, true, false, not, some, List, arith, leb, Bool-cases, Option-cases, length, get_or,
  length-set,
}
use esp_scheduler.Platform.{Platform}
use esp_scheduler.Core.Array.{last_or, pop_back}
use esp_scheduler.Core.IdIndex
use esp_scheduler.Core.IdIndex.Probe.{IsValid}
use esp_scheduler.Core.IdIndex.Laws.{get-remove}
use esp_scheduler.Core.Job.{
  JobRecord, new_job, SchedulerError, not_found, SchedulerResult, success, failure, Result-cases,
}
use esp_scheduler.Core.Scheduler.{
  SchedulerCore, Core, slots, job_at, set_job, find_job_slot, clear_scheduling, retire_job,
  finalize_canceled_if_idle, reschedule, push_due, push_due_or_clear, clock_valid,
}
use esp_scheduler.Core.Calls.{
  cancel_slot, cancel_job, pause_job, get_job_info, cancel_from, cancel_all, count_jobs, job_count,
}
use esp_scheduler.Core.Due.{drain_one, drain_rounds, drain_pending_schedules}
use esp_scheduler.Core.Wakeup.{job_at-set, job_at-out}

module _ (p : Platform) where
  open p use {DateTime}

  -- The job of an id, where there is one.
  abbrev pub Found : Core p → ℕ → ℕ → Type 0
  Found c id s =
      (IdIndex.get c.job_index id ≡ some s)
      × (s < slots p c)
      × ((job_at p c s).occupied ≡ true)
      × ((job_at p c s).canceled ≡ false)
      × ((job_at p c s).id ≡ id)

  pub find_job_slot-Found :
      (c : Core p) (id s : ℕ) → find_job_slot p c id ≡ success s → Found c id s
  unfolding find_job_slot
  find_job_slot-Found c id s e = elim (Option-cases (IdIndex.get c.job_index id)) [
    | inl none_there ↦ ground arith
    | inr (t, there) ↦ ground arith
  ]

  pub Found-find_job_slot :
      (c : Core p) (id s : ℕ) → Found c id s → find_job_slot p c id ≡ success s
  unfolding find_job_slot
  Found-find_job_slot c id s (there, inside, occupied, canceled, same) = ground arith

  pub find_job_slot-fails :
      (c : Core p) (id : ℕ) → ((s : ℕ) → ¬ Found c id s) → find_job_slot p c id ≡ failure not_found
  unfolding find_job_slot
  find_job_slot-fails c id h = elim (Option-cases (IdIndex.get c.job_index id)) [
    | inl none_there ↦ ground arith
    | inr (t, there) ↦ ground (arith, h t)
  ]

  -- The job in the slot takes part no more.
  abbrev pub Gone : Core p → ℕ → Type 0
  Gone c i = (job_at p c i).occupied && not (job_at p c i).canceled ≡ false

  -- No slot but `s` has changed.
  abbrev pub OthersKept : ℕ → Core p → Core p → Type 0
  OthersKept s c c' = (slots p c' ≡ slots p c) × ((i : ℕ) → i ≢ s → job_at p c' i ≡ job_at p c i)

  if-keeps :
      (Q : Core p → Type 0) (b : Bool) (x y : Core p)
      → (b ≡ true → Q x)
      → (b ≡ false → Q y)
      → Q (if b then x else y)
  if-keeps Q true x y w v = w refl
  if-keeps Q false x y w v = v refl

  pub set-here :
      (c : Core p) (s : ℕ) (r : JobRecord p) → s < slots p c → job_at p (set_job p c s r) s ≡ r
  set-here c s r h = ground (arith, job_at-set p c s s r)

  pub set-OthersKept : (c : Core p) (s : ℕ) (r : JobRecord p) → OthersKept s c (set_job p c s r)
  set-OthersKept c s r = (length-set c.jobs.items s r, λ i ne. ground (arith, job_at-set p c s i r))

  set-Gone :
      (c : Core p) (s : ℕ) (r : JobRecord p)
      → r.occupied && not r.canceled ≡ false
      → Gone (set_job p c s r) s
  unfolding new_job
  set-Gone c s r h = ground (arith, job_at-set p c s s r, job_at-out p c s)

  pub trans-OthersKept :
      (s : ℕ) (c d e : Core p) → OthersKept s c d → OthersKept s d e → OthersKept s c e
  trans-OthersKept s c d e (m, f) (n, g) = (n ∙ m, λ i ne. g i ne ∙ f i ne)

  clear_scheduling-Gone : (c : Core p) (s : ℕ) → Gone c s → Gone (clear_scheduling p c s) s
  unfolding clear_scheduling
  clear_scheduling-Gone c s h =
      if-keeps (λ d. Gone d s) (leb (slots p c) s) _ _ (λ e. h) (λ e. set-Gone c s _ h)

  pub clear_scheduling-OthersKept : (c : Core p) (s : ℕ) → OthersKept s c (clear_scheduling p c s)
  unfolding clear_scheduling
  clear_scheduling-OthersKept c s =
      if-keeps (OthersKept s c) (leb (slots p c) s) _ _ (λ e. (refl, λ i ne. refl))
        (λ e. set-OthersKept c s _)

  retire_job-Gone : (c : Core p) (s : ℕ) → Gone c s → Gone (retire_job p c s) s
  unfolding retire_job
  retire_job-Gone c s h = elim (Bool-cases (leb (slots p c) s)) [
    | inl outside ↦ rw outside h
    | inr inside ↦ rw inside (set-Gone c s _ refl)
  ]

  retire_job-OthersKept : (c : Core p) (s : ℕ) → OthersKept s c (retire_job p c s)
  unfolding retire_job
  retire_job-OthersKept c s = elim (Bool-cases (leb (slots p c) s)) [
    | inl outside ↦ rw outside (refl, λ i ne. refl)
    | inr inside ↦ rw inside (set-OthersKept c s _)
  ]

  finalize-Gone : (c : Core p) (s : ℕ) → Gone c s → Gone (finalize_canceled_if_idle p c s) s
  finalize-Gone c s h =
      let r = job_at p c s in
      unfold finalize_canceled_if_idle in
      if-keeps (λ d. Gone d s) (leb (slots p c) s) c
        (if r.occupied && (r.canceled && r.running_count == 0) then retire_job p c s else c)
        (λ e. h)
        λ e.
          if-keeps (λ d. Gone d s) (r.occupied && (r.canceled && r.running_count == 0))
            (retire_job p c s) c (λ e. retire_job-Gone c s h) (λ e. h)

  finalize-OthersKept : (c : Core p) (s : ℕ) → OthersKept s c (finalize_canceled_if_idle p c s)
  finalize-OthersKept c s =
      let r = job_at p c s in
      let same : OthersKept s c c = (refl, λ i ne. refl) in
      unfold finalize_canceled_if_idle in
      if-keeps (OthersKept s c) (leb (slots p c) s) c
        (if r.occupied && (r.canceled && r.running_count == 0) then retire_job p c s else c)
        (λ e. same)
        λ e.
          if-keeps (OthersKept s c) (r.occupied && (r.canceled && r.running_count == 0))
            (retire_job p c s) c (λ e. retire_job-OthersKept c s) (λ e. same)

  pub cancel_slot-Gone : (c : Core p) (s : ℕ) → Gone (cancel_slot p c s) s
  unfolding cancel_slot
  cancel_slot-Gone c s =
      let r = record (job_at p c s) {
        canceled = true;
        paused = false;
        queued_while_running = false;
      } in
      finalize-Gone _ s (clear_scheduling-Gone (set_job p c s r) s (set-Gone c s r (ground arith)))

  pub cancel_slot-OthersKept : (c : Core p) (s : ℕ) → OthersKept s c (cancel_slot p c s)
  unfolding cancel_slot
  cancel_slot-OthersKept c s =
      let r = record (job_at p c s) {
        canceled = true;
        paused = false;
        queued_while_running = false;
      } in
      let c₁ = set_job p c s r in
      let c₂ = clear_scheduling p c₁ s in
      trans-OthersKept s c c₁ (finalize_canceled_if_idle p c₂ s) (set-OthersKept c s r) (
        trans-OthersKept s c₁ c₂ (finalize_canceled_if_idle p c₂ s)
          (clear_scheduling-OthersKept c₁ s) (finalize-OthersKept c₂ s))

  -- The slots that the loop of `cancelAll` has passed.
  cancel_from-Gone :
      (n i : ℕ) (c : Core p)
      → ((j : ℕ) → j < i → Gone c j)
      → (slots p (cancel_from p n i c) ≡ slots p c)
        × ((j : ℕ) → j < i + n → Gone (cancel_from p n i c) j)
  unfolding cancel_from
  cancel_from-Gone zero i c h = (refl, λ j b. h j (omega arith))
  cancel_from-Gone (suc n) i c h =
      let skip = not (job_at p c i).occupied || (job_at p c i).canceled in
      let d = if skip then c else cancel_slot p c i in
      let step : (slots p d ≡ slots p c) × ((j : ℕ) → j < i + 1 → Gone d j) =
        if-keeps (λ d. (slots p d ≡ slots p c) × ((j : ℕ) → j < i + 1 → Gone d j)) skip _ _
          (λ e. (
            refl,
            λ j b. elim (Bool-cases (j == i)) [
              | inl same ↦ let k : j ≡ i = ground arith in rw k (ground arith)
              | inr other ↦ h j (ground arith)
            ],
          ))
          (λ e. (
            (cancel_slot-OthersKept c i).0,
            λ j b. elim (Bool-cases (j == i)) [
              | inl same ↦ let k : j ≡ i = ground arith in rw k (cancel_slot-Gone c i)
              | inr other ↦
                  rw ((cancel_slot-OthersKept c i).1 j (ground arith)) (h j (ground arith))
            ],
          )) in
      let (size, gone) = cancel_from-Gone n (i + 1) d step.1 in
      (size ∙ step.0, λ j b. gone j (omega arith))

  count_jobs-Gone :
      (jobs : List (JobRecord p))
      → ((i : ℕ)
          → i < length jobs
          → (get_or jobs i (new_job p)).occupied && not (get_or jobs i (new_job p)).canceled
            ≡ false)
      → count_jobs p jobs ≡ 0
  unfolding count_jobs
  count_jobs-Gone [] h = refl
  count_jobs-Gone (r ∷ rs) h =
      ground (arith, h 0 (omega arith), count_jobs-Gone rs (λ i b. h (suc i) (omega arith)))

  -- After `cancelAll` no job is counted.
  pub job_count-cancel_all : (c : Core p) → job_count p (cancel_all p c).1 ≡ success 0
  unfolding job_count cancel_all
  job_count-cancel_all c =
      let (size, gone) = cancel_from-Gone (slots p c) 0 c (λ j b. absurd (omega arith)) in
      ap success (count_jobs-Gone _ (λ i b. gone i (omega (arith, size))))
