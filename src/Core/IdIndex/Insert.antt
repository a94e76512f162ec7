-- ===== src/Core/IdIndex/Insert.antt =====
-- `insertOrAssign` keeps the table well formed and changes the answer for one id.
use esp_scheduler.Prelude.{
  ◌+◌, ◌≤◌, ◌<◌, ◌≡◌, ◌≢◌, ◌⊎◌, ◌==◌, if◌then◌else◌, ℕ, zero, suc, refl, inl, inr, true, false,
  List, arith, Bool-cases, length,
}
use esp_scheduler.Core.IdIndex.{
  EntryState, empty, occupied, deleted, Entry, at, home, next, Target, take_at, assign_at, reuse_at,
  no_room, insert_loop,
}
use esp_scheduler.Core.IdIndex.Probe.{walk, walk-lt, Holds, Passed}

EntryState-cases : (s : EntryState) → (s ≡ empty) ⊎ (s ≡ deleted) ⊎ (s ≡ occupied)
EntryState-cases s = ground arith

module _ (es : List Entry) (job_id : ℕ) where
  abbrev step_at : ℕ → ℕ
  step_at d = walk (length es) job_id d

  -- Nothing on the first `d` steps ends the search.
  abbrev PassedBefore : ℕ → Type 0
  PassedBefore d = (j : ℕ) → j < d → Passed es job_id (step_at j)

  -- `firstDeleted` after `d` steps: none yet, or a deleted entry among them.
  abbrev FirstDeleted : ℕ → ℕ → Type 0
  FirstDeleted d first =
      (first ≡ length es)
      ⊎ ((j : ℕ) × (j < d) × (step_at j ≡ first) × ((at es first).state ≡ deleted))

  -- Where an insertion may write: at the id itself, or at an unused entry of the searched path of an
  -- id that the table lacks.
  pub data Outcome : Target → Type 0 where
    assigned :
        (d : ℕ) → d < length es → Holds es job_id (step_at d) → Outcome (assign_at (step_at d))
    taken :
        (d j i : ℕ)
        → d < length es
        → PassedBefore d
        → (at es (step_at d)).state ≡ empty
        → j ≤ d
        → step_at j ≡ i
        → (at es i).state ≢ occupied
        → Outcome (take_at i)
    reused :
        (j i : ℕ)
        → PassedBefore (length es)
        → j < length es
        → step_at j ≡ i
        → (at es i).state ≡ deleted
        → Outcome (reuse_at i)
    full : PassedBefore (length es) → Outcome no_room

  Passed-next : (d : ℕ) → PassedBefore d → Passed es job_id (step_at d) → PassedBefore (suc d)
  Passed-next d before here j h = elim (Bool-cases (j == d)) [
    | inl last ↦ let same : j ≡ d = ground arith in rw same here
    | inr earlier ↦ before j (ground arith)
  ]

  first_next : (d first : ℕ) → FirstDeleted d first → FirstDeleted (suc d) first
  first_next d first (inl e) = inl e
  first_next d first (inr (j, h, e, s)) = inr (j, omega arith, e, s)

  -- The entry that a new id takes when the search meets an empty one.
  take_first :
      (d first : ℕ)
      → d < length es
      → PassedBefore d
      → (at es (step_at d)).state ≡ empty
      → FirstDeleted d first
      → Outcome (take_at (if first == length es then step_at d else first))
  take_first d first h before free (inl e) =
      let none_yet : (first == length es) ≡ true = ground arith in
      rw none_yet (taken d d (step_at d) h before free (omega arith) refl (ground arith))
  take_first d first h before free (inr (j, b, e, s)) =
      let inside = walk-lt (length es) job_id j (omega arith) in
      let some_seen : (first == length es) ≡ false = ground arith in
      rw some_seen (taken d j first h before free (omega arith) e (ground arith))

  reuse_first :
      (d first : ℕ)
      → d ≡ length es
      → PassedBefore d
      → FirstDeleted d first
      → Outcome (if first == length es then no_room else reuse_at first)
  reuse_first d first h before (inl e) =
      let none_seen : (first == length es) ≡ true = ground arith in
      rw none_seen (full (λ j b. before j (omega arith)))
  reuse_first d first h before (inr (j, b, e, s)) =
      let inside = walk-lt (length es) job_id j (omega arith) in
      let some_seen : (first == length es) ≡ false = ground arith in
      rw some_seen (reused j first (λ k c. before k (omega arith)) (omega arith) e s)

  first_seen :
      (d first : ℕ)
      → d < length es
      → (at es (step_at d)).state ≡ deleted
      → FirstDeleted d first
      → FirstDeleted (suc d) (if first == length es then step_at d else first)
  first_seen d first h s (inl e) =
      let none_yet : (first == length es) ≡ true = ground arith in
      rw none_yet (inr (d, omega arith, refl, s))
  first_seen d first h s (inr (j, b, e, t)) =
      let inside = walk-lt (length es) job_id j (omega arith) in
      let some_seen : (first == length es) ≡ false = ground arith in
      rw some_seen (inr (j, omega arith, e, t))

  -- One round of the loop, by the entry that it meets.
  module _ (left x first : ℕ) where
    abbrev go_on : ℕ → Target
    go_on first' = insert_loop left es job_id (next (length es) x) first'

    meets_empty :
        (at es x).state ≡ empty
        → insert_loop (suc left) es job_id x first
          ≡ take_at (if first == length es then x else first)
    unfolding insert_loop
    meets_empty e = rw (e, insert_loop)

    meets_deleted :
        (at es x).state ≡ deleted
        → insert_loop (suc left) es job_id x first ≡ go_on (if first == length es then x else first)
    unfolding insert_loop
    meets_deleted e = rw (e, insert_loop)

    meets_occupied :
        (at es x).state ≡ occupied
        → insert_loop (suc left) es job_id x first
          ≡ (if (at es x).job_id == job_id then assign_at x else go_on first)
    unfolding insert_loop
    meets_occupied e = rw (e, insert_loop)

  insert_loop-Outcome :
      (left d first : ℕ)
      → d + left ≡ length es
      → PassedBefore d
      → FirstDeleted d first
      → Outcome (insert_loop left es job_id (step_at d) first)
  unfolding insert_loop walk
  insert_loop-Outcome zero d first h before f = reuse_first d first (omega arith) before f
  insert_loop-Outcome (suc left) d first h before f =
      let x = step_at d in
      let inside : d < length es = omega arith in
      let rest =
        λ (first' : ℕ) (here : Passed es job_id (step_at d)) (f' : FirstDeleted (suc d) first').
          insert_loop-Outcome left (suc d) first' (omega arith) (Passed-next d before here) f' in
      elim (EntryState-cases (at es (step_at d)).state) [
        | inl e ↦ rw (meets_empty left x first e) (take_first d first inside before e f)
        | inr (inl e) ↦ rw (meets_deleted left x first e) (
            rest (if first == length es then step_at d else first)
              (ground arith, λ held. ground arith) (first_seen d first inside e f))
        | inr (inr e) ↦
            rw (meets_occupied left x first e)
              (elim (Bool-cases ((at es (step_at d)).job_id == job_id)) [
                | inl same ↦ rw same (assigned d inside (e, ground arith))
                | inr other ↦
                    rw other
                      (rest first (ground arith, λ held. ground arith) (first_next d first f))
              ])
      ]

  -- `insertOrAssign` begins at the id's own position with no deleted entry seen.
  pub insert-Outcome :
      Outcome (insert_loop (length es) es job_id (home (length es) job_id) (length es))
  unfolding walk
  insert-Outcome =
      insert_loop-Outcome (length es) 0 (length es) (omega arith) (λ j h. absurd (omega arith))
        (inl refl)
