-- ===== src/Core/IdIndex/Assign.antt =====
-- `insertOrAssign` as a change of the map that `get` reads: it sets one id.
use esp_scheduler.Prelude.{
  ◌≤◌, ◌<◌, ◌≡◌, ◌≢◌, ◌⊎◌, ◌==◌, if◌then◌else◌, ℕ, refl, inl, inr, Option, none, some, arith, ltb,
  Bool-cases, length, set,
}
use esp_scheduler.Core.IdIndex.{
  empty, occupied, Entry, IdIndex, at, Target, write_target, insert_or_assign, get,
}
use esp_scheduler.Core.IdIndex.Probe.{walk, walk-lt, Holds, Passed, IsValid, Has-get}
use esp_scheduler.Core.IdIndex.Insert.{Outcome, assigned, taken, reused, full, insert-Outcome}
use esp_scheduler.Core.IdIndex.Write.{
  written, at-written, length-written, get-written_other, written-IsValid_same, written-IsValid_new,
}

-- `u` is a well-formed table that reads as `t`, but for one id.
pub record Maps (t : IdIndex) (job_id : ℕ) (r : Option ℕ) (u : IdIndex) : Type 0 where
  pub valid : IsValid u
  pub width : length u.entries ≡ length t.entries
  pub reads : (q : ℕ) → get u q ≡ (if job_id == q then r else get t q)

module _ (t : IdIndex) (job_id slot : ℕ) (v : IsValid t) (nonzero : job_id ≢ 0) where
  abbrev new_entry : Entry
  new_entry = record { job_id = job_id; slot_index = slot; state = occupied }

  -- An entry on a path that was searched in vain belongs to no table with the id.
  absent_before :
      (d : ℕ)
      → ((j : ℕ) → j < d → Passed t.entries job_id (walk (length t.entries) job_id j))
      → ((d ≡ length t.entries) ⊎ ((at t.entries (walk (length t.entries) job_id d)).state ≡ empty))
      → (k : ℕ) → k < length t.entries
      → ¬ Holds t.entries job_id k
  absent_before d before stop k h held =
      let path = v.reached k h held.0 in
      let arrived : walk (length t.entries) job_id path.steps ≡ k = rw held.1 at path.arrives in
      let there : Holds t.entries job_id (walk (length t.entries) job_id path.steps) =
        rw arrived held in
      let used = λ (j : ℕ) (b : j < path.steps). rw held.1 at (path.unbroken j b) in
      elim (Bool-cases (ltb path.steps d)) [
        | inl early ↦ (before path.steps (ground arith)).1 there
        | inr late ↦ elim (Bool-cases (path.steps == d)) [
          | inl exact ↦
              let same : path.steps ≡ d = ground arith in
              elim stop [
                | inl all ↦ absurd (omega (arith, path.within))
                | inr hole ↦ let clash = rw same at there in ground arith
              ]
          | inr beyond ↦ elim stop [
            | inl all ↦ absurd (ground (arith, path.within))
            | inr hole ↦ used d (ground arith) hole
          ]
        ]
      ]

  -- A new entry at `i`, on the searched path.
  put_new :
      (d j i n m : ℕ)
      → ((k : ℕ) → k < d → Passed t.entries job_id (walk (length t.entries) job_id k))
      → ((d ≡ length t.entries) ⊎ ((at t.entries (walk (length t.entries) job_id d)).state ≡ empty))
      → j ≤ d
      → j < length t.entries
      → walk (length t.entries) job_id j ≡ i
      → (at t.entries i).state ≢ occupied
      → Maps t job_id
          (some slot)
          (record { entries = set t.entries i new_entry; size = n; deleted_count = m })
  put_new d j i n m before stop le inside arrives free =
      let absent = absent_before d before stop in
      let i_in : i < length t.entries =
        rw arrives at (walk-lt (length t.entries) job_id j (omega arith)) in
      let ok =
        written-IsValid_new t i new_entry n m i_in refl free nonzero absent j inside arrives
          (λ k b. (before k (omega arith)).0) v in
      record {
        valid = ok;
        width = length-written t i new_entry n m i_in;
        reads = λ q. elim (Bool-cases (job_id == q)) [
          | inl same ↦
              let e : job_id ≡ q = ground arith in
              let here = at-written t i new_entry n m i_in i in
              rw same (
                Has-get (written t i new_entry n m i_in) q slot ok (
                  i,
                  omega (arith, length-written t i new_entry n m i_in),
                  ground arith,
                  ground arith,
                ))
          | inr other ↦ rw other (
              get-written_other t i new_entry n m i_in q v ok (λ held. free held.0)
                (λ held. ground arith))
        ];
      }

  put_same :
      (i : ℕ)
      → i < length t.entries
      → Holds t.entries job_id i
      → Maps t job_id
          (some slot)
          (record t { entries = set t.entries i (record (at t.entries i) { slot_index = slot }) })
  put_same i i_in held =
      let e : Entry = record (at t.entries i) { slot_index = slot } in
      let n = t.size in
      let m = t.deleted_count in
      let ok = written-IsValid_same t i e n m i_in held.0 (held.0, refl) v in
      record {
        valid = ok;
        width = length-written t i e n m i_in;
        reads = λ q. elim (Bool-cases (job_id == q)) [
          | inl same ↦
              let here = at-written t i e n m i_in i in
              rw same (
                Has-get (written t i e n m i_in) q slot ok
                  (i, omega (arith, length-written t i e n m i_in), ground arith, ground arith))
          | inr other ↦
              rw other
                (get-written_other t i e n m i_in q v ok (λ h. ground arith) (λ h. ground arith))
        ];
      }

  -- What the write of `insertOrAssign` makes of each outcome.
  pub data Inserted : Option IdIndex → Type 0 where
    done : {u : IdIndex} → Maps t job_id (some slot) u → Inserted (some u)
    refused :
        ((k : ℕ)
          → k < length t.entries
          → (at t.entries (walk (length t.entries) job_id k)).state ≢ empty)
        → Inserted none

  write_target-Inserted :
      {r : Target} → Outcome t.entries job_id r → Inserted (write_target t job_id slot r)
  unfolding write_target
  write_target-Inserted (assigned d h held) =
      done (put_same _ (walk-lt (length t.entries) job_id d (omega arith)) held)
  write_target-Inserted (taken d j i h before hole le arrives free) =
      done (put_new d j i _ _ before (inr hole) le (omega arith) arrives free)
  write_target-Inserted (reused j i before h arrives s) =
      done (
        put_new (length t.entries) j i _ _ before (inl refl) (omega arith) h arrives (ground arith))
  write_target-Inserted (full before) = refused (λ k h. (before k h).0)

  pub insert_or_assign-Inserted : Inserted (insert_or_assign t job_id slot)
  unfolding insert_or_assign
  insert_or_assign-Inserted = write_target-Inserted (insert-Outcome t.entries job_id)
