-- ===== src/Core/IdIndex/Rehash.antt =====
-- `rehash` moves every id to the new block: the map that `get` reads stays.
use esp_scheduler.Prelude.{
  ◌+◌, ◌*◌, ◌<◌, ◌≡◌, ◌≢◌, ◌∷◌, ◌==◌, if◌then◌else◌, [], ℕ, zero, suc, refl, inl, inr, Bool, true,
  false, Option, none, some, List, arith, ltb, leb, Bool-cases, Option-cases, length, replicate,
}
use esp_scheduler.Platform.{Platform}
use esp_scheduler.Core.Array.{scheduler_allocate}
use esp_scheduler.Core.IdIndex.{
  EntryState, occupied, Entry, no_entry, IdIndex, at, insert_or_assign, find_position, get, refill,
  next_capacity, rehash, ensure_capacity_for_insert,
}
use esp_scheduler.Core.IdIndex.Probe.{Holds, IsValid, get-some-Has, Has-get}
use esp_scheduler.Core.IdIndex.Assign.{Maps, Inserted, done, insert_or_assign-Inserted}

-- The slot of an id in a block, read from the end.
pub listed : List Entry → ℕ → Option ℕ
listed [] q = none
listed (e ∷ es) q = elim (listed es q) [
  | some s ↦ some s
  | none ↦ elim e.state [ occupied ↦ if e.job_id == q then some e.slot_index else none | _ ↦ none ]
]

abbrev pub or_else : Option ℕ → Option ℕ → Option ℕ
or_else (some s) r = some s
or_else none r = r

-- The entries in use have ids other than 0.
abbrev NonzeroIds : List Entry → Type 0
NonzeroIds [] = Unit
NonzeroIds (e ∷ es) = (e.state ≡ occupied → e.job_id ≢ 0) × NonzeroIds es

-- A table after the loop has gone through a block.
record Refilled (es : List Entry) (t u : IdIndex) : Type 0 where
  valid : IsValid u
  reads : (q : ℕ) → get u q ≡ or_else (listed es q) (get t q)

refill_entry :
    (e : Entry) (es : List Entry) (t t' u : IdIndex)
    → e.state ≡ occupied
    → Maps t e.job_id (some e.slot_index) t'
    → Refilled es t' u
    → Refilled (e ∷ es) t u
unfolding listed
refill_entry e es t t' u o put rest = record {
  valid = rest.valid;
  reads = λ q. ground (arith, rest.reads q, put.reads q);
}

abbrev is_occupied : EntryState → Bool
is_occupied occupied = true
is_occupied _ = false

Inserted-Maps :
    (t : IdIndex) (job_id slot : ℕ) {v : IsValid t} {nonzero : job_id ≢ 0} (u : IdIndex)
    → Inserted t job_id slot v nonzero (some u)
    → Maps t job_id (some slot) u
Inserted-Maps t job_id slot u (done put) = put

refill-Refilled :
    (es : List Entry) (t u : IdIndex)
    → IsValid t
    → NonzeroIds es
    → refill es t ≡ some u
    → Refilled es t u
unfolding refill listed
refill-Refilled [] t u v ids h =
    let same : t ≡ u = ground arith in record { valid = rw (← same) v; reads = λ q. rw same }
refill-Refilled (e ∷ es) t u v ids h = elim (Bool-cases (is_occupied e.state)) [
  | inr skipped ↦
      let next : refill es t ≡ some u = ground arith in
      let rest = refill-Refilled es t u v ids.1 next in
      record { valid = rest.valid; reads = λ q. ground (arith, rest.reads q) }
  | inl used ↦
      let o : e.state ≡ occupied = ground arith in
      elim (Option-cases (insert_or_assign t e.job_id e.slot_index)) [
        | inl full ↦ ground arith
        | inr (t', put) ↦
            let next : refill es t' ≡ some u = ground arith in
            let maps =
              Inserted-Maps t e.job_id e.slot_index t'
                (rw put at (insert_or_assign-Inserted t e.job_id e.slot_index v (ids.0 o))) in
            refill_entry e es t t' u o maps (refill-Refilled es t' u maps.valid ids.1 next)
      ]
]

listed-Holds :
    (es : List Entry) (q s : ℕ)
    → listed es q ≡ some s
    → (i : ℕ) × (i < length es) × Holds es q i × ((at es i).slot_index ≡ s)
unfolding listed
listed-Holds [] q s h = cc
listed-Holds (e ∷ es) q s h = elim (Option-cases (listed es q)) [
  | inr (s', found) ↦
      let (i, inside, held, slot) = listed-Holds es q s' found in
      (suc i, omega arith, held, ground arith)
  | inl not_found ↦ (0, omega arith, ground arith, ground arith)
]

Holds-listed : (es : List Entry) (q i : ℕ) → i < length es → Holds es q i → listed es q ≢ none
unfolding listed
Holds-listed [] q i h held = absurd (omega arith)
Holds-listed (e ∷ es) q zero h held = ground arith
Holds-listed (e ∷ es) q (suc i) h held = ground (arith, Holds-listed es q i (omega arith) held)

-- Read from its block, a well-formed table answers as `get`.
listed-get : (t : IdIndex) (q : ℕ) → IsValid t → listed t.entries q ≡ get t q
listed-get t q v = elim (Option-cases (listed t.entries q)) [
  | inr (s, found) ↦ rw (found, Has-get t q s v (listed-Holds t.entries q s found))
  | inl not_found ↦ elim (Option-cases (get t q)) [
    | inl none_there ↦ rw (not_found, none_there)
    | inr (s, there) ↦
        let (i, h, held, _) = get-some-Has t q s there in
        absurd (Holds-listed t.entries q i h held not_found)
  ]
]

nonzero_ids :
    (es : List Entry)
    → ((i : ℕ) → i < length es → (at es i).state ≡ occupied → (at es i).job_id ≢ 0)
    → NonzeroIds es
nonzero_ids [] h = tt
nonzero_ids (e ∷ es) h = (h 0 (omega arith), nonzero_ids es λ i b. h (suc i) (omega arith))

at-replicate : (n i : ℕ) → at (replicate n no_entry) i ≡ no_entry
at-replicate zero i = refl
at-replicate (suc n) zero = refl
at-replicate (suc n) (suc i) = at-replicate n i

abbrev pub blank : ℕ → IdIndex
blank n = record { entries = replicate n no_entry; size = 0; deleted_count = 0 }

pub blank-IsValid : (n : ℕ) → IsValid (blank n)
blank-IsValid n = record {
  reached = λ i h used. ground (arith, at-replicate n i);
  unique = λ i j q hi hj a b. ground (arith, at-replicate n i);
  nonzero = λ i h used. ground (arith, at-replicate n i);
}

get-blank : (n q : ℕ) → get (blank n) q ≡ none
get-blank n q = elim (Option-cases (get (blank n) q)) [
  | inl e ↦ e
  | inr (s, e) ↦
      let (i, h, held, _) = get-some-Has (blank n) q s e in ground (arith, at-replicate n i)
]

-- Well formed, and reading as `t`.
pub record SameMap (t u : IdIndex) : Type 0 where
  pub valid : IsValid u
  pub reads : (q : ℕ) → get u q ≡ get t q

SameMap-refl : (t : IdIndex) → IsValid t → SameMap t t
SameMap-refl t v = record { valid = v; reads = λ q. refl }

-- The counts play no part in a lookup.
recounted : (t : IdIndex) (n : ℕ) → IsValid t → SameMap t (record t { deleted_count = n })
unfolding get find_position
recounted t n v = record {
  valid = record { reached = v.reached; unique = v.unique; nonzero = v.nonzero };
  reads = λ q. refl;
}

module _ (p : Platform) where
  -- `rehash` of a well-formed table gives one that reads the same, whether it succeeds or not.
  pub rehash-SameMap :
      (n : ℕ) (t : IdIndex) (m : p.World) → IsValid t → SameMap t (rehash p n t m).1
  unfolding rehash
  rehash-SameMap n t m v =
      let granted = (scheduler_allocate p p.size_of_index_entry n m).0 in
      elim (Bool-cases (scheduler_allocate p p.size_of_index_entry n m).0) [
        | inr denied ↦ rw denied (SameMap-refl t v)
        | inl ok ↦ rw ok (elim (Option-cases (refill t.entries (blank n))) [
          | inl failed ↦ rw (failed, rehash) (recounted t _ v)
          | inr (u, filled) ↦
              let r =
                refill-Refilled t.entries (blank n) u (blank-IsValid n)
                  (nonzero_ids t.entries v.nonzero) filled in
              rw (filled, rehash)
                (record {
                  valid = r.valid;
                  reads = λ q. ground (arith, r.reads q, get-blank n q, listed-get t q v);
                })
        ])
      ]

  pub ensure_capacity_for_insert-SameMap :
      (t : IdIndex) (m : p.World) → IsValid t → SameMap t (ensure_capacity_for_insert p t m).1
  unfolding ensure_capacity_for_insert
  ensure_capacity_for_insert-SameMap t m v = elim (Bool-cases (length t.entries == 0)) [
    | inl no_block ↦ rw no_block (rehash-SameMap (next_capacity (length t.entries)) t m v)
    | inr block ↦
        rw block
          (elim (Bool-cases (leb (length t.entries * 7) ((t.size + t.deleted_count + 1) * 10))) [
            | inl crowded ↦ rw crowded (rehash-SameMap (next_capacity (length t.entries)) t m v)
            | inr roomy ↦ rw roomy (elim (Bool-cases (ltb t.size t.deleted_count)) [
              | inl stale ↦ rw stale (rehash-SameMap (length t.entries) t m v)
              | inr fresh ↦ rw fresh (SameMap-refl t v)
            ])
          ])
  ]
