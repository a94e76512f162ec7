-- ===== src/Core/DueHeap/Swap.antt =====
-- Writes and exchanges in the heap's array, entry by entry and as rearrangements.
use mathlib.Core.List.Perm
use esp_scheduler.Prelude.{
  ◌<◌, ◌≡◌, ◌∙◌, ◌∷◌, ◌==◌, if◌then◌else◌, [], ℕ, zero, suc, List, Perm, arith, length, set,
  length-set, get_or-set,
}
use esp_scheduler.Core.DueHeap.{DueHeapEntry, no_entry, at, swap}

-- Writing `v` at `i` gives up the entry that stood there.
pub set-perm :
    (es : List DueHeapEntry) (i : ℕ) (v : DueHeapEntry)
    → i < length es
    → Perm (at es i ∷ set es i v) (v ∷ es)
set-perm [] i v h = absurd (omega arith)
set-perm (e ∷ es) zero v h = Perm.swap v e es
set-perm (e ∷ es) (suc i) v h =
    Perm.trans (Perm.swap e (at es i) (set es i v))
      (Perm.trans (Perm.cons e (set-perm es i v (omega arith))) (Perm.swap v e es))

pub length-swap : (es : List DueHeapEntry) (i j : ℕ) → length (swap es i j) ≡ length es
unfolding swap
length-swap es i j = length-set (set es i (at es j)) j (at es i) ∙ length-set es i (at es j)

module _ (es : List DueHeapEntry) (i j : ℕ) (hi : i < length es) (hj : j < length es) where
  -- The entries after an exchange.
  pub at-swap :
      (c : ℕ)
      → at (swap es i j) c ≡ (if j == c then at es i else if i == c then at es j else at es c)
  unfolding swap
  at-swap c = ground (
    arith,
    get_or-set (set es i (at es j)) j c (at es i) no_entry,
    get_or-set es i c (at es j) no_entry,
    length-set es i (at es j),
  )

  pub swap-perm : Perm (swap es i j) es
  unfolding swap
  swap-perm =
      let once = set es i (at es j) in
      let kept : at once j ≡ at es j = ground (arith, get_or-set es i j (at es j) no_entry) in
      let inner : j < length once = omega (arith, length-set es i (at es j)) in
      Perm.cons_inv
        (Perm.trans (rw kept at (set-perm once j (at es i) inner)) (set-perm es i (at es j) hi))
