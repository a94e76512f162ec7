-- ===== src/Core/Wakeup/Next.antt =====
-- `nextDueEpoch` of core/scheduler_core.cpp answers with the earliest next run there is.
use mathlib.Core.List.{not-mem-nil}
use esp_scheduler.Prelude.{
  ◌+◌, ◌≤◌, ◌<◌, ◌≡◌, ◌⊎◌, ◌&&◌, ◌∷◌, ◌==◌, ◌≤ℤ◌, [], ℕ, zero, suc, refl, inl, inr, true, false,
  not, Option, none, some, List, arith, Bool-cases, length, set, init, length-set, length-init, ℤ,
  eq_ℤ_iff,
}
use esp_scheduler.Platform.{Platform}
use esp_scheduler.Core.DueHeap.{
  DueHeapEntry, DueHeap, no_entry, at, swap, sift_down, pop_entries, candidate,
}
use esp_scheduler.Core.DueHeap
use esp_scheduler.Core.DueHeap.Order.{due, top_is_least, least_of_mem}
use esp_scheduler.Core.Array.{last_or}
use esp_scheduler.Core.Scheduler.{Core, job_at}
use esp_scheduler.Core.Due.{
  next_due_epoch, pop_due, prune_rounds, prune_invalid_due_entries, validate_due_entry,
}
use esp_scheduler.Core.Wakeup.{live, Wakes}
use esp_scheduler.Core.Wakeup.Dispatch.{prune_invalid_due_entries-Wakes}

length-sift_down : (f : ℕ) (es : List DueHeapEntry) (i : ℕ) → length (sift_down f es i) ≡ length es
unfolding sift_down swap
length-sift_down zero es i = refl
length-sift_down (suc f) es i =
    let n = candidate es i in
    ground (
      arith,
      length-sift_down f (swap es i n) n,
      length-set es i (at es n),
      length-set (set es i (at es n)) n (at es i),
    )

length-pop_entries :
    (es : List DueHeapEntry) → 0 < length es → length (pop_entries es) + 1 ≡ length es
unfolding pop_entries
length-pop_entries es h =
    let moved = init (set es 0 (last_or es no_entry)) in
    ground (
      arith,
      length-init es,
      length-sift_down (length moved + 1) moved 0,
      length-init (set es 0 (last_or es no_entry)),
      length-set es 0 (last_or es no_entry),
    )

length-zero : (es : List DueHeapEntry) → length es ≡ 0 → es ≡ []
length-zero [] h = refl
length-zero (e ∷ es) h = absurd (omega arith)

module _ (p : Platform) where
  validate-pop_due : (c : Core p) → validate_due_entry p (pop_due p c) ≡ validate_due_entry p c
  unfolding validate_due_entry
  validate-pop_due c = refl

  -- With enough rounds, pruning ends at an empty heap or at a valid entry.
  prune_rounds_settle :
      (n : ℕ) (c : Core p)
      → length c.due_heap.entries.items ≤ n
      → (DueHeap.empty (prune_rounds p n c).due_heap ≡ true)
        ⊎ (validate_due_entry p c (DueHeap.top (prune_rounds p n c).due_heap) ≡ true)
  unfolding prune_rounds DueHeap.empty DueHeap.pop
  prune_rounds_settle zero c h = inl (ground arith)
  prune_rounds_settle (suc n) c h =
      let heap = c.due_heap in
      elim (Bool-cases
        (not (DueHeap.empty heap) && not (validate_due_entry p c (DueHeap.top heap)))) [
          | inr kept ↦ rw kept (ground arith)
          | inl stale ↦
              let rest =
                prune_rounds_settle n (pop_due p c)
                  (ground (arith, length-pop_entries heap.entries.items)) in
              rw stale (rw (validate-pop_due c) at rest)
        ]

  prune_rounds-jobs : (n : ℕ) (c : Core p) → (prune_rounds p n c).jobs ≡ c.jobs
  unfolding prune_rounds
  prune_rounds-jobs zero c = refl
  prune_rounds-jobs (suc n) c = ground (arith, prune_rounds-jobs n (pop_due p c))

  -- An entry that validates is that of a live job.
  valid_is_live :
      (c : Core p) (e : DueHeapEntry)
      → validate_due_entry p c e ≡ true
      → (live p (job_at p c e.slot_index) ≡ true)
        × (p.epoch_seconds (job_at p c e.slot_index).next_run_utc ≡ e.next_epoch)
  unfolding validate_due_entry
  valid_is_live c e h =
      ground (arith, eq_ℤ_iff (p.epoch_seconds (job_at p c e.slot_index).next_run_utc) e.next_epoch)

  -- The time of a job's next run.
  abbrev pub next_epoch_of : Core p → ℕ → ℤ
  next_epoch_of c i = p.epoch_seconds (job_at p c i).next_run_utc

  -- The earliest next run of all jobs that have one.
  pub data Earliest (c : Core p) : Option ℤ → Type 0 where
    earliest :
        (i : ℕ)
        → live p (job_at p c i) ≡ true
        → ((j : ℕ) → live p (job_at p c j) ≡ true → next_epoch_of c i ≤ℤ next_epoch_of c j)
        → Earliest c (some (next_epoch_of c i))
    none_due : ((j : ℕ) → live p (job_at p c j) ≡ false) → Earliest c none

  -- A job that is live after pruning is due no earlier than the top of the heap.
  top-least :
      (c : Core p) (j : ℕ)
      → Wakes p c
      → live p (job_at p c j) ≡ true
      → (DueHeap.empty c.due_heap ≡ false)
        × ((DueHeap.top c.due_heap).next_epoch ≤ℤ next_epoch_of c j)
  unfolding DueHeap.empty DueHeap.top
  top-least c j w h =
      let es = c.due_heap.entries.items in
      let here = w.due j h in
      let nonempty : length es == 0 ≡ false = elim (Bool-cases (length es == 0)) [
        | inr some_there ↦ some_there
        | inl nothing ↦
            let bare : es ≡ [] = length-zero es (ground arith) in
            absurd (not-mem-nil (rw bare at here))
      ] in
      (nonempty, least_of_mem es (due es 0) (λ i b. top_is_least es i w.ordered b) _ here)

  -- `nextDueEpoch` answers with the time of a live job's next run, the earliest of them all, and with
  -- nothing only where no job has a next run.
  pub next_due_epoch-Earliest : (c : Core p) → Wakes p c → Earliest c (next_due_epoch p c).0
  next_due_epoch-Earliest c w =
      let n = length c.due_heap.entries.items in
      let c' = prune_invalid_due_entries p c in
      let w' = prune_invalid_due_entries-Wakes p c w in
      let same : c'.jobs ≡ c.jobs = unfold prune_invalid_due_entries in prune_rounds-jobs n c in
      let top = DueHeap.top c'.due_heap in
      let least = λ (j : ℕ). rw same at (top-least c' j w') in
      elim (Bool-cases (DueHeap.empty c'.due_heap)) [
        | inl nothing ↦
            let answer : (next_due_epoch p c).0 ≡ none = unfold next_due_epoch in rw nothing refl in
            rw answer (none_due λ j. ground (arith, least j))
        | inr something ↦
            let settled : (DueHeap.empty c'.due_heap ≡ true) ⊎ (validate_due_entry p c top ≡ true) =
              unfold prune_invalid_due_entries in prune_rounds_settle n c (omega arith) in
            let (is_live, time) = valid_is_live c top (ground arith) in
            let answer : (next_due_epoch p c).0 ≡ some (next_epoch_of c top.slot_index) =
              unfold next_due_epoch in rw (something, time) refl in
            rw answer (earliest top.slot_index is_live λ j h. rw time (least j h).1)
      ]
