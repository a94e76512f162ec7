-- ===== src/Core/DueHeap/Order.antt =====
-- The heap order by due time, and what it says of the first entry.
use mathlib.Core.List.{not-mem-nil, forall_mem-cons, Mem}
use native.Mathlib.Bridge.{le_prop}
use esp_scheduler.Prelude.{◌<◌, ◌∷◌, ◌≤ℤ◌, [], ℕ, zero, suc, List, arith, length, ℤ}
use esp_scheduler.Core.DueHeap.{DueHeapEntry, at, parent}

abbrev pub due : List DueHeapEntry → ℕ → ℤ
due es i = (at es i).next_epoch

-- No entry is due before its parent.
abbrev pub IsHeap : List DueHeapEntry → Type 0
IsHeap es = (c : ℕ) → 0 < c → c < length es → due es (parent c) ≤ℤ due es c

top_is_least_below :
    (k : ℕ) (es : List DueHeapEntry) (i : ℕ)
    → IsHeap es
    → i < k
    → i < length es
    → due es 0 ≤ℤ due es i
top_is_least_below zero es i heap f h = absurd (omega arith)
top_is_least_below (suc k) es zero heap f h = omega arith
top_is_least_below (suc k) es (suc i) heap f h = omega (
  arith,
  heap (suc i) (omega arith) h,
  top_is_least_below k es (parent (suc i)) heap (omega arith) (omega arith),
)

-- The first entry of a heap is due no later than any other.
pub top_is_least :
    (es : List DueHeapEntry) (i : ℕ) → IsHeap es → i < length es → due es 0 ≤ℤ due es i
top_is_least es i heap h = top_is_least_below (suc i) es i heap (omega arith) h

pub least_of_mem :
    (es : List DueHeapEntry) (t : ℤ)
    → ((i : ℕ) → i < length es → t ≤ℤ due es i)
    → (e : DueHeapEntry) → Mem e es
    → t ≤ℤ e.next_epoch
least_of_mem [] t h = λ e m. absurd (not-mem-nil m)
least_of_mem (x ∷ es) t h =
    (forall_mem-cons λ e. le_prop).1
      (h 0 (omega arith), least_of_mem es t λ i b. h (suc i) (omega arith))
