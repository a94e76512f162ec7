-- ===== src/Core/DueHeap/Down.antt =====
-- The loop of `pop` moves the entry put in front down to its place.
use mathlib.Core.List.Perm
use esp_scheduler.Prelude.{
  ◌+◌, ◌-◌, ◌*◌, ◌<◌, ◌≡◌, ◌≢◌, ◌⊎◌, ◌==◌, if◌then◌else◌, ◌≤ℤ◌, ◌<ℤ◌, ℕ, zero, suc, inl, inr, List,
  arith, Bool-cases, length,
}
use esp_scheduler.Core.DueHeap.{DueHeapEntry, parent, swap, candidate, sift_down}
use esp_scheduler.Core.DueHeap.Swap.{length-swap, at-swap, swap-perm}
use esp_scheduler.Core.DueHeap.Order.{due}
use esp_scheduler.Core.DueHeap.Up.{Sifted}

-- In order but for the edges below `i`; what is below `i` fits under the parent of `i` too.
pub record Sinking (es : List DueHeapEntry) (i : ℕ) : Type 0 where
  pub ordered : (c : ℕ) → 0 < c → c < length es → parent c ≢ i → due es (parent c) ≤ℤ due es c
  pub spared :
      (c : ℕ) → 0 < c → c < length es → parent c ≡ i → 0 < i → due es (parent i) ≤ℤ due es c

-- What the two tests of a round choose: `i` itself where both children are no earlier, or else an
-- earliest child.
record IsCandidate (es : List DueHeapEntry) (i m : ℕ) : Type 0 where
  settled : m ≡ i → (c : ℕ) → 0 < c → c < length es → parent c ≡ i → due es i ≤ℤ due es c
  child : m ≢ i → (0 < m) × (m < length es) × (parent m ≡ i) × (due es m <ℤ due es i)
  least : m ≢ i → (c : ℕ) → 0 < c → c < length es → parent c ≡ i → due es m ≤ℤ due es c

two_children : (i c : ℕ) → 0 < c → parent c ≡ i → (c ≡ i * 2 + 1) ⊎ (c ≡ i * 2 + 1 + 1)
two_children i c above p = omega arith

candidate-IsCandidate : (es : List DueHeapEntry) (i : ℕ) → IsCandidate es i (candidate es i)
unfolding candidate
candidate-IsCandidate es i = record {
  settled = λ e c above h p. ground (arith, two_children i c above p);
  child = λ ne. ground arith;
  least = λ ne c above h p. ground (arith, two_children i c above p);
}

sink :
    (es : List DueHeapEntry) (i m : ℕ)
    → i < length es
    → Sinking es i
    → IsCandidate es i m
    → m ≢ i
    → Sinking (swap es i m) m
sink es i m hi v s ne =
    let size = length-swap es i m in
    let child = s.child ne in
    let entry = at-swap es i m hi child.1 in
    record {
      ordered = λ c above h p.
          ground (arith, entry c, entry (parent c), v.ordered c, v.spared m, s.least ne c, child);
      spared = λ c above h e above_m. ground (arith, entry c, entry (parent m), v.ordered c, child);
    }

sift_down_round :
    (k : ℕ) (es : List DueHeapEntry) (i : ℕ)
    → sift_down (suc k) es i ≡ (
        if candidate es i == i
        then es
        else sift_down k (swap es i (candidate es i)) (candidate es i))
unfolding sift_down
sift_down_round k es i = ground arith

pub sift_down-Sifted :
    (k : ℕ) (es : List DueHeapEntry) (i : ℕ)
    → length es - i < k
    → i < length es
    → Sinking es i
    → Sifted es (sift_down k es i)
sift_down-Sifted zero es i f hi v = absurd (omega arith)
sift_down-Sifted (suc k) es i f hi v =
    let m = candidate es i in
    let choice = candidate-IsCandidate es i in
    rw (sift_down_round k es i) (elim (Bool-cases (candidate es i == i)) [
      | inl stay ↦
          let same : candidate es i ≡ i = ground arith in
          rw stay (λ c above h. ground (arith, v.ordered c, choice.settled same c), Perm.rfl)
      | inr move ↦
          let ne : candidate es i ≢ i = ground arith in
          let below = choice.child ne in
          let (heap, same) =
            sift_down-Sifted k (swap es i (candidate es i)) (candidate es i)
              (omega (arith, length-swap es i (candidate es i)))
              (omega (arith, length-swap es i (candidate es i)))
              (sink es i (candidate es i) hi v choice ne) in
          rw move (heap, Perm.trans same (swap-perm es i (candidate es i) hi below.1))
    ])
