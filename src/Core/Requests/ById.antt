-- ===== src/Core/Requests/ById.antt =====
-- `cancelJob` and `pauseJob` of core/scheduler_core.cpp, seen through a later lookup of the same id.
use esp_scheduler.Prelude.{
  ◌<◌, ◌≡◌, ◌∙◌, ◌⊎◌, ◌&&◌, ◌==◌, ℕ, refl, ap, inl, inr, true, false, arith, leb, Bool-cases,
}
use esp_scheduler.Platform.{Platform}
use esp_scheduler.Core.IdIndex
use esp_scheduler.Core.IdIndex.Probe.{IsValid}
use esp_scheduler.Core.IdIndex.Laws.{get-remove}
use esp_scheduler.Core.Job.{JobRecord, not_found, success, failure, Result-cases}
use esp_scheduler.Core.Scheduler.{
  Core, slots, job_at, set_job, find_job_slot, clear_scheduling, retire_job,
  finalize_canceled_if_idle,
}
use esp_scheduler.Core.Calls.{cancel_slot, cancel_job, pause_job, get_job_info}
use esp_scheduler.Core.Requests.{
  Found, find_job_slot-Found, Found-find_job_slot, find_job_slot-fails, OthersKept, set-here,
  set-OthersKept, trans-OthersKept, cancel_slot-Gone, clear_scheduling-OthersKept,
}

module _ (p : Platform) where
  -- What `clearScheduling` does to the job of its slot.
  abbrev cleared : JobRecord p → JobRecord p
  cleared r = record r { pending_schedule = false; has_next = false; refresh_pending = false }

  clear_scheduling-here :
      (c : Core p) (s : ℕ)
      → s < slots p c
      → job_at p (clear_scheduling p c s) s ≡ cleared (job_at p c s)
  clear_scheduling-here c s h =
      let inside : leb (slots p c) s ≡ false = ground arith in
      let same : clear_scheduling p c s ≡ set_job p c s (cleared (job_at p c s)) =
        unfold clear_scheduling in rw inside refl in
      rw same (set-here p c s (cleared (job_at p c s)) h)

  -- The same, after a write to the slot.
  cleared-here :
      (c : Core p) (s : ℕ) (r : JobRecord p)
      → s < slots p c
      → job_at p (clear_scheduling p (set_job p c s r) s) s ≡ cleared r
  cleared-here c s r h =
      clear_scheduling-here (set_job p c s r) s (rw ((set-OthersKept p c s r).0) h)
      ∙ ap cleared (set-here p c s r h)

  -- The index is the same, or has lost the slot's id.
  abbrev Unindexed : ℕ → Core p → Core p → Type 0
  Unindexed s c d =
      (d.job_index ≡ c.job_index) ⊎ (d.job_index ≡ (IdIndex.remove c.job_index (job_at p c s).id).1)

  retire_job-Unindexed : (c : Core p) (s : ℕ) → Unindexed s c (retire_job p c s)
  unfolding retire_job
  retire_job-Unindexed c s = elim (Bool-cases (leb (slots p c) s)) [
    | inl outside ↦ rw outside (inl refl)
    | inr inside ↦ rw inside (elim (Bool-cases ((job_at p c s).id == 0)) [
      | inl zero_id ↦ rw zero_id (inl refl)
      | inr id ↦ rw id (inr refl)
    ])
  ]

  finalize-Unindexed : (c : Core p) (s : ℕ) → Unindexed s c (finalize_canceled_if_idle p c s)
  finalize-Unindexed c s =
      let r = job_at p c s in
      let retired = retire_job-Unindexed c s in
      elim (Bool-cases (leb (slots p c) s)) [
        | inl outside ↦
            let same : finalize_canceled_if_idle p c s ≡ c =
              unfold finalize_canceled_if_idle in rw outside refl in
            rw same (inl refl)
        | inr inside ↦ elim (Bool-cases (r.occupied && (r.canceled && r.running_count == 0))) [
          | inl over ↦
              let same : finalize_canceled_if_idle p c s ≡ retire_job p c s =
                unfold finalize_canceled_if_idle in rw (inside, over) refl in
              rw same retired
          | inr more ↦
              let same : finalize_canceled_if_idle p c s ≡ c =
                unfold finalize_canceled_if_idle in rw (inside, more) refl in
              rw same (inl refl)
        ]
      ]

  -- Where the index is well formed, an id is not found once it has been canceled, whether it was known or
  -- not and whether its job was idle or still runs.
  pub find_job_slot-cancel_job :
      (c : Core p) (id : ℕ)
      → IsValid c.job_index
      → find_job_slot p (cancel_job p c id).1 id ≡ failure not_found
  find_job_slot-cancel_job c id v = elim (Result-cases (find_job_slot p c id)) [
    | inl (e, missing) ↦
        let kept : (cancel_job p c id).1 ≡ c = unfold cancel_job in rw (missing, cancel_job) refl in
        rw kept (find_job_slot-fails p c id (λ s f. cc (missing, Found-find_job_slot p c id s f)))
    | inr (s, found) ↦
        let kept : (cancel_job p c id).1 ≡ cancel_slot p c s =
          unfold cancel_job in rw (found, cancel_job) refl in
        let d = cancel_slot p c s in
        let (there, inside, occupied, active, same_id) = find_job_slot-Found p c id s found in
        let r = record (job_at p c s) {
          canceled = true;
          paused = false;
          queued_while_running = false;
        } in
        let c₁ = set_job p c s r in
        let c₂ = clear_scheduling p c₁ s in
        let unindexed : Unindexed s c₂ d = unfold cancel_slot in finalize-Unindexed c₂ s in
        let id₂ : (job_at p c₂ s).id ≡ id = ap (λ x. x.id) (cleared-here c s r inside) ∙ same_id in
        let index₂ : c₂.job_index ≡ c.job_index = unfold clear_scheduling in ground arith in
        rw kept (
          find_job_slot-fails p d id (λ t f.
            let gone = cancel_slot-Gone p c s in
            elim unindexed [
              | inl same ↦ let at_s : t ≡ s = ground (arith, there, f.0) in ground (arith, f.2, f.3)
              | inr removed ↦
                  let none_there = (get-remove c.job_index id v).2 id in ground (arith, f.0)
            ]))
  ]

  -- `getJobInfo` copies the job that it finds.
  found_info :
      (c : Core p) (id s : ℕ)
      → find_job_slot p c id ≡ success s
      → ((get_job_info p c id).0 ≡ success tt)
        × ((get_job_info p c id).1.id ≡ (job_at p c s).id)
        × ((get_job_info p c id).1.paused ≡ (job_at p c s).paused)
        × ((get_job_info p c id).1.has_next ≡ (job_at p c s).has_next)
  unfolding get_job_info
  found_info c id s found = rw (found, get_job_info) (refl, refl, refl, refl)

  -- After a pause that succeeds, the id's job is there, paused and without a next run, and no other slot
  -- has changed.
  pub get_job_info-pause_job :
      (c : Core p) (id : ℕ)
      → (pause_job p c id).0 ≡ success tt
      → ((get_job_info p (pause_job p c id).1 id).0 ≡ success tt)
        × ((get_job_info p (pause_job p c id).1 id).1.id ≡ id)
        × ((get_job_info p (pause_job p c id).1 id).1.paused ≡ true)
        × ((get_job_info p (pause_job p c id).1 id).1.has_next ≡ false)
        × ((s : ℕ) × Found p c id s × OthersKept p s c (pause_job p c id).1)
  get_job_info-pause_job c id ok = elim (Result-cases (find_job_slot p c id)) [
    | inl (e, missing) ↦
        let failed : (pause_job p c id).0 ≡ failure e =
          unfold pause_job in rw (missing, pause_job) refl in
        cc
    | inr (s, found) ↦
        let f = find_job_slot-Found p c id s found in
        let (there, inside, occupied, active, same_id) = f in
        let r = record (job_at p c s) { paused = true; queued_while_running = false } in
        let c₁ = set_job p c s r in
        let d = clear_scheduling p c₁ s in
        let kept =
          trans-OthersKept p s c c₁ d (set-OthersKept p c s r)
            (clear_scheduling-OthersKept p c₁ s) in
        let after : (pause_job p c id).1 ≡ d = unfold pause_job in rw (found, pause_job) refl in
        let here : job_at p d s ≡ cleared r = cleared-here c s r inside in
        let index : d.job_index ≡ c.job_index = unfold clear_scheduling in ground arith in
        let again : find_job_slot p d id ≡ success s =
          Found-find_job_slot p d id s (
            rw index there,
            rw (kept.0) inside,
            rw here occupied,
            rw here active,
            rw here same_id,
          ) in
        let info = found_info d id s again in
        rw after (
          info.0,
          info.1 ∙ ap (λ x. x.id) here ∙ same_id,
          info.2 ∙ ap (λ x. x.paused) here,
          info.3 ∙ ap (λ x. x.has_next) here,
          (s, f, kept),
        )
  ]
