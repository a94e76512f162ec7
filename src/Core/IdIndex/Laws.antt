-- ===== src/Core/IdIndex/Laws.antt =====
-- The index as a finite map: what `get` answers after `set` and `remove`.
use esp_scheduler.Prelude.{
  ◌+◌, ◌-◌, ◌<◌, ◌≡◌, ◌≢◌, ◌==◌, if◌then◌else◌, ℕ, refl, inl, inr, Bool, true, false, Option, none,
  some, arith, Bool-cases, Option-cases, length,
}
use esp_scheduler.Platform.{Platform}
use esp_scheduler.Core.IdIndex.{
  deleted, Entry, IdIndex, at, find_position, get, remove, set_id, insert_or_assign,
  ensure_capacity_for_insert, assign_in,
}
use esp_scheduler.Core.IdIndex.Probe.{Holds, IsValid, get-some-Has, Has-get, find_position-Holds}
use esp_scheduler.Core.IdIndex.Write.{
  written, at-written, length-written, get-written_other, written-IsValid_deleted,
}
use esp_scheduler.Core.IdIndex.Assign.{Inserted, done, refused, insert_or_assign-Inserted}
use esp_scheduler.Core.IdIndex.Rehash.{SameMap, ensure_capacity_for_insert-SameMap}

abbrev tombstone : Entry
tombstone = record { job_id = 0; slot_index = 0; state = deleted }

abbrev pub is_some : Option ℕ → Bool
is_some none = false
is_some (some s) = true

-- Once its entry is deleted, an id stands nowhere.
get-tombstone :
    (t : IdIndex) (job_id q i n m : ℕ) (i_in : i < length t.entries)
    → IsValid t
    → Holds t.entries job_id i
    → job_id ≡ q
    → get (written t i tombstone n m i_in) q ≡ none
get-tombstone t job_id q i n m i_in v held e =
    elim (Option-cases (get (written t i tombstone n m i_in) q)) [
      | inl absent ↦ absent
      | inr (s, there) ↦
          let (j, j_in, here, _) = get-some-Has (written t i tombstone n m i_in) q s there in
          let entry = at-written t i tombstone n m i_in j in
          let size = length-written t i tombstone n m i_in in
          ground (arith, entry, size, v.unique i j q)
    ]

-- On a well-formed table, `remove` takes the id out and keeps every other id, and answers whether the id was there.
pub get-remove :
    (t : IdIndex) (job_id : ℕ)
    → IsValid t
    → IsValid (remove t job_id).1
      × ((remove t job_id).0 ≡ is_some (get t job_id))
      × ((q : ℕ) → get (remove t job_id).1 q ≡ (if job_id == q then none else get t q))
get-remove t job_id v = elim (Option-cases (find_position t job_id)) [
  | inl absent ↦
      let nothing : get t job_id ≡ none = unfold get in rw absent in
      let same : remove t job_id ≡ (false, t) = unfold remove in rw (absent, remove) in
      rw (same, nothing)
        (
          v,
          refl,
          λ q. elim (Bool-cases (job_id == q)) [
            | inl eq ↦ let e : job_id ≡ q = ground arith in rw eq (rw e at nothing)
            | inr other ↦ rw other
          ],
        )
  | inr (i, found) ↦
      let (i_in, held) = find_position-Holds t job_id i found in
      let n = t.size - 1 in
      let m = t.deleted_count + 1 in
      let u = written t i tombstone n m i_in in
      let same : remove t job_id ≡ (true, u) = unfold remove in rw (found, remove) in
      let something = Has-get t job_id (at t.entries i).slot_index v (i, i_in, held, refl) in
      let ok = written-IsValid_deleted t i tombstone n m i_in refl v in
      rw (same, something)
        (
          ok,
          refl,
          λ q. elim (Bool-cases (job_id == q)) [
            | inl eq ↦ rw eq (get-tombstone t job_id q i n m i_in v held (ground arith))
            | inr other ↦ rw other (
                get-written_other t i tombstone n m i_in q v ok (λ h. ground arith)
                  (λ h. ground arith))
          ],
        )
]

-- What `set` answers and leaves: the id at its new slot, or, without memory, the same map.
pub data Set (t : IdIndex) (job_id slot : ℕ) : Bool → IdIndex → Type 0 where
  stored :
      {u : IdIndex}
      → IsValid u
      → ((q : ℕ) → get u q ≡ (if job_id == q then some slot else get t q))
      → Set t job_id slot true u
  unchanged : {u : IdIndex} → SameMap t u → Set t job_id slot false u

module _ (p : Platform) (job_id slot : ℕ) (t : IdIndex) where
  assigned_Set :
      (u : IdIndex) (r : Option IdIndex) {v : IsValid u} {nonzero : job_id ≢ 0} (m : p.World)
      → SameMap t u
      → insert_or_assign u job_id slot ≡ r
      → Inserted u job_id slot v nonzero r
      → Set t job_id slot
          (assign_in p job_id slot (true, u, m)).0
          (assign_in p job_id slot (true, u, m)).1
  assigned_Set u r m same e (done put) =
      rw e (stored put.valid (λ q. ground (arith, put.reads q, same.reads q)))
  assigned_Set u r m same e (refused used) = rw e (unchanged same)

  pub Set-IsValid : {b : Bool} {u : IdIndex} → Set t job_id slot b u → IsValid u
  Set-IsValid (stored v reads) = v
  Set-IsValid (unchanged same) = same.valid

  -- On a well-formed table, `set` stores the slot under the id and keeps every other id; where it answers `false`, every id
  -- is as before. Growing, compacting and a rehash that fails make no difference.
  pub set_id-Set :
      (m : p.World)
      → IsValid t
      → Set t job_id slot (set_id p job_id slot t m).0 (set_id p job_id slot t m).1
  unfolding set_id
  set_id-Set m v = elim (Bool-cases (job_id == 0)) [
    | inl zero_id ↦ rw zero_id (unchanged (record { valid = v; reads = λ q. refl }))
    | inr id ↦
        let same = ensure_capacity_for_insert-SameMap p t m v in
        let nonzero : job_id ≢ 0 = ground arith in
        rw id (elim (Bool-cases (ensure_capacity_for_insert p t m).0) [
          | inr denied ↦ rw denied (unchanged same)
          | inl ready ↦ rw ready (
              assigned_Set (ensure_capacity_for_insert p t m).1 _
                (ensure_capacity_for_insert p t m).2 same refl
                (insert_or_assign-Inserted _ job_id slot same.valid nonzero))
        ])
  ]
