-- ===== src/Core/DueHeap/Up.antt =====
-- The loop of `push` moves the new entry up to its place.
use mathlib.Core.List.Perm
use esp_scheduler.Prelude.{
  ◌-◌, ◌<◌, ◌≡◌, ◌≢◌, ◌&&◌, ◌∷◌, ◌++◌, if◌then◌else◌, ◌≤ℤ◌, ◌<ℤ◌, [], ℕ, zero, suc, inl, inr, List,
  Perm, arith, ltb, Bool-cases, length, length-append, get_or-append,
}
use esp_scheduler.Core.DueHeap.{
  DueHeapEntry, no_entry, at, later, parent, swap, sift_up, push_entries,
}
use esp_scheduler.Core.DueHeap.Swap.{length-swap, at-swap, swap-perm}
use esp_scheduler.Core.DueHeap.Order.{due, IsHeap}

-- In order but for the edge above `i`; what is below `i` fits under the parent of `i` too.
pub record Rising (es : List DueHeapEntry) (i : ℕ) : Type 0 where
  pub inside : i < length es
  pub ordered : (c : ℕ) → 0 < c → c < length es → c ≢ i → due es (parent c) ≤ℤ due es c
  pub spared :
      (c : ℕ) → 0 < c → c < length es → parent c ≡ i → 0 < i → due es (parent i) ≤ℤ due es c

rise :
    (es : List DueHeapEntry) (i : ℕ)
    → Rising es i
    → 0 < i
    → due es i <ℤ due es (parent i)
    → Rising (swap es (parent i) i) (parent i)
rise es i v above smaller =
    let size = length-swap es (parent i) i in
    let entry = at-swap es (parent i) i (omega arith) v.inside in
    record {
      inside = omega arith;
      ordered =
          λ c above_c h ne. ground (arith, entry c, entry (parent c), v.ordered c, v.spared c);
      spared = λ c above_c h e above_p.
          ground (arith, entry c, entry (parent (parent i)), v.ordered c, v.ordered (parent i));
    }

-- The result of a loop over `es`: its entries in heap order.
abbrev pub Sifted : List DueHeapEntry → List DueHeapEntry → Type 0
Sifted es r = IsHeap r × Perm r es

sift_up_round :
    (k : ℕ) (es : List DueHeapEntry) (i : ℕ)
    → sift_up (suc k) es i ≡ (
        if ltb 0 i && later (at es (parent i)) (at es i)
        then sift_up k (swap es (parent i) i) (parent i)
        else es)
unfolding sift_up
sift_up_round k es i = ground arith

pub sift_up-Sifted :
    (k : ℕ) (es : List DueHeapEntry) (i : ℕ) → i < k → Rising es i → Sifted es (sift_up k es i)
sift_up-Sifted zero es i f v = absurd (omega arith)
sift_up-Sifted (suc k) es i f v =
    rw (sift_up_round k es i) (elim (Bool-cases (ltb 0 i && later (at es (parent i)) (at es i))) [
      | inl exchange ↦
          let above : 0 < i = ground arith in
          let (heap, same) =
            sift_up-Sifted k (swap es (parent i) i) (parent i) (omega arith)
              (rise es i v above (ground arith)) in
          rw exchange
            (heap, Perm.trans same (swap-perm es (parent i) i (omega (arith, v.inside)) v.inside))
      | inr settled ↦ rw settled (λ c above h. ground (arith, v.ordered c), Perm.rfl)
    ])

-- After an entry is put at the end of a heap, the loop makes a heap of all entries.
pub push_entries-Sifted :
    (es : List DueHeapEntry) (e : DueHeapEntry)
    → IsHeap es
    → Sifted (es ++ e ∷ []) (push_entries (es ++ e ∷ []))
unfolding push_entries
push_entries-Sifted es e heap =
    let size = length-append es (e ∷ []) in
    let entry = λ (c : ℕ). get_or-append es (e ∷ []) c no_entry in
    sift_up-Sifted (length (es ++ e ∷ [])) (es ++ e ∷ []) (length (es ++ e ∷ []) - 1) (omega arith)
      (record {
        inside = omega arith;
        ordered = λ c above h ne. ground (arith, entry c, entry (parent c), heap c);
        spared = λ c above h p q. absurd (omega arith);
      })
