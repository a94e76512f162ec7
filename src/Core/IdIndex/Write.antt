-- ===== src/Core/IdIndex/Write.antt =====
-- One entry of a well-formed table is written: by an insertion, a new slot, or a removal.
use esp_scheduler.Prelude.{
  ◌<◌, ◌≡◌, ◌≢◌, ◌==◌, if◌then◌else◌, ℕ, inl, inr, arith, Bool-cases, Option-cases, length, set,
  length-set, get_or-set,
}
use esp_scheduler.Core.IdIndex.{empty, occupied, deleted, Entry, no_entry, IdIndex, at, get}
use esp_scheduler.Core.IdIndex.Probe.{walk, Holds, Reached, IsValid, Has, get-some-Has, Has-get}

-- Two tables that hold an id alike answer alike.
pub get_congr :
    (t u : IdIndex) (q : ℕ)
    → IsValid t
    → IsValid u
    → ((s : ℕ) → Has t q s → Has u q s)
    → ((s : ℕ) → Has u q s → Has t q s)
    → get u q ≡ get t q
get_congr t u q v w to from = elim (Option-cases (get t q)) [
  | inr (s, e) ↦ rw e (Has-get u q s w (to s (get-some-Has t q s e)))
  | inl e ↦ elim (Option-cases (get u q)) [
    | inl f ↦ rw (e, f)
    | inr (s, f) ↦ cc (Has-get t q s v (from s (get-some-Has u q s f)))
  ]
]

module _ (t : IdIndex) (i : ℕ) (e : Entry) (n m : ℕ) (inside : i < length t.entries) where
  abbrev pub written : IdIndex
  written = record { entries = set t.entries i e; size = n; deleted_count = m }

  pub at-written : (j : ℕ) → at written.entries j ≡ (if i == j then e else at t.entries j)
  at-written j = ground (arith, get_or-set t.entries i j e no_entry)

  pub length-written : length written.entries ≡ length t.entries
  length-written = length-set t.entries i e

  -- A path stays unbroken where the entry written is in use.
  Reached-written :
      (j : ℕ)
      → e.state ≢ empty
      → (at written.entries j).job_id ≡ (at t.entries j).job_id
      → Reached t.entries j
      → Reached written.entries j
  Reached-written j used same path = record {
    steps = path.steps;
    within = omega (arith, length-written, path.within);
    arrives = rw (length-written, same) path.arrives;
    unbroken = λ k b.
        rw (length-written, same)
          (ground (
            arith,
            at-written (walk (length t.entries) (at t.entries j).job_id k),
            path.unbroken k b,
          ));
  }

  -- Other ids are read as before, if neither the old entry nor the new one is theirs.
  pub get-written_other :
      (q : ℕ)
      → IsValid t
      → IsValid written
      → ¬ Holds t.entries q i
      → ¬ ((e.state ≡ occupied) × (e.job_id ≡ q))
      → get written q ≡ get t q
  get-written_other q v w not_old not_new =
      get_congr t written q v w
        (λ s (j, h, here, slot).
          let apart : i ≢ j = λ same. not_old (rw same here) in
          let kept : at written.entries j ≡ at t.entries j = ground (arith, at-written j) in
          (j, omega (arith, length-written), rw kept here, rw kept slot))
        (λ s (j, h, here, slot).
          let apart : i ≢ j = λ same. not_new (ground (arith, at-written j)) in
          let kept : at written.entries j ≡ at t.entries j = ground (arith, at-written j) in
          (j, omega (arith, length-written), rw kept at here, rw kept at slot))

  -- A removal: the entry is in use, but no id's.
  pub written-IsValid_deleted : e.state ≡ deleted → IsValid t → IsValid written
  written-IsValid_deleted gone v = record {
    reached = λ j h o.
        let apart : i ≢ j = λ same. ground (arith, at-written j) in
        Reached-written j (ground arith) (ground (arith, at-written j))
          (v.reached j (omega (arith, length-written)) (ground (arith, at-written j)));
    unique = λ j k q hj hk a b.
        v.unique j k q (omega (arith, length-written)) (omega (arith, length-written))
          (ground (arith, at-written j)) (ground (arith, at-written k));
    nonzero = λ j h o. ground (arith, at-written j, v.nonzero j, length-written);
  }

  -- A new slot for an id that stands there.
  pub written-IsValid_same :
      e.state ≡ occupied → Holds t.entries e.job_id i → IsValid t → IsValid written
  written-IsValid_same o held v = record {
    reached = λ j h used.
        Reached-written j (ground arith) (ground (arith, at-written j))
          (v.reached j (omega (arith, length-written)) (ground (arith, at-written j)));
    unique = λ j k q hj hk a b.
        v.unique j k q (omega (arith, length-written)) (omega (arith, length-written))
          (ground (arith, at-written j)) (ground (arith, at-written k));
    nonzero = λ j h used. ground (arith, at-written j, v.nonzero j, length-written);
  }

  -- A new id at an entry without an id, on its unbroken path.
  pub written-IsValid_new :
      e.state ≡ occupied
      → (at t.entries i).state ≢ occupied
      → e.job_id ≢ 0
      → ((j : ℕ) → j < length t.entries → ¬ Holds t.entries e.job_id j)
      → (d : ℕ) → d < length t.entries
      → walk (length t.entries) e.job_id d ≡ i
      → ((j : ℕ) → j < d → (at t.entries (walk (length t.entries) e.job_id j)).state ≢ empty)
      → IsValid t
      → IsValid written
  written-IsValid_new o free nonzero absent d h arrives unbroken v = record {
    reached = λ j b used. elim (Bool-cases (i == j)) [
      | inl same ↦
          let here : at written.entries j ≡ e = ground (arith, at-written j) in
          record {
            steps = d;
            within = omega (arith, length-written);
            arrives = rw (length-written, here) (ground arith);
            unbroken = λ k c.
                rw (length-written, here)
                  (ground (arith, at-written (walk (length t.entries) e.job_id k), unbroken k c));
          }
      | inr other ↦
          Reached-written j (ground arith) (ground (arith, at-written j))
            (v.reached j (omega (arith, length-written)) (ground (arith, at-written j)))
    ];
    unique = λ j k q hj hk a b.
        ground
          (arith, at-written j, at-written k, length-written, absent j, absent k, v.unique j k q);
    nonzero = λ j b used. ground (arith, at-written j, v.nonzero j, length-written);
  }
