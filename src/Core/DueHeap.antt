-- ===== src/Core/DueHeap.antt =====
-- core/due_heap.h: the binary heap of due times. `top` and `pop` are for a heap that is not empty,
-- as the callers make sure of. A loop takes fuel, one round for each level that it can visit.
pub mod Swap
pub mod Order
pub mod Up
pub mod Down
pub mod Laws
use esp_scheduler.Prelude.{
  ◌+◌, ◌-◌, ◌*◌, ◌/◌, ◌&&◌, ◌==◌, if◌then◌else◌, ℕ, zero, suc, Bool, true, false, List, ltb, length,
  get_or, set, init, ℤ, pos, ltb_ℤ,
}
use esp_scheduler.Platform.{Platform}
use esp_scheduler.Core.Array.{
  SchedulerArray, Pushed, empty_array, push_back, pop_back, last_or, clear,
}

pub record DueHeapEntry : Type 0 where
  pub next_epoch : ℤ
  pub slot_index : ℕ
  pub generation : ℕ

abbrev pub no_entry : DueHeapEntry
no_entry = record { next_epoch = pos 0; slot_index = 0; generation = 0 }

pub record DueHeap : Type 0 where
  pub entries : SchedulerArray DueHeapEntry

abbrev pub at : List DueHeapEntry → ℕ → DueHeapEntry
at es i = get_or es i no_entry

-- `Compare{}(lhs, rhs)`: the left entry is due later.
abbrev pub later : DueHeapEntry → DueHeapEntry → Bool
later lhs rhs = ltb_ℤ rhs.next_epoch lhs.next_epoch

-- The exchange by way of `tmp`.
unfoldable pub swap : List DueHeapEntry → ℕ → ℕ → List DueHeapEntry
swap es i j = set (set es i (at es j)) j (at es i)

abbrev pub parent : ℕ → ℕ
parent index = (index - 1) / 2

unfoldable pub sift_up : ℕ → List DueHeapEntry → ℕ → List DueHeapEntry
sift_up zero es index = es
sift_up (suc fuel) es index =
    let rest = sift_up fuel (swap es (parent index) index) (parent index) in
    if ltb 0 index then if later (at es (parent index)) (at es index) then rest else es else es

-- The child to exchange with, or `index` itself.
unfoldable pub candidate : List DueHeapEntry → ℕ → ℕ
candidate es index =
    let left = index * 2 + 1 in
    let right = left + 1 in
    let first = if ltb left (length es) && later (at es index) (at es left) then left else index in
    if ltb right (length es) && later (at es first) (at es right) then right else first

unfoldable pub sift_down : ℕ → List DueHeapEntry → ℕ → List DueHeapEntry
sift_down zero es index = es
sift_down (suc fuel) es index =
    let next = candidate es index in
    let rest = sift_down fuel (swap es index next) next in if next == index then es else rest

-- The contents after a push, and after a pop.
unfoldable pub push_entries : List DueHeapEntry → List DueHeapEntry
unfolding sift_up swap
push_entries es = sift_up (length es) es (length es - 1)

unfoldable pub pop_entries : List DueHeapEntry → List DueHeapEntry
unfolding sift_down swap candidate
pop_entries es =
    if length es == 1
    then init es
    else let moved = init (set es 0 (last_or es no_entry)) in sift_down (length moved + 1) moved 0

module _ (p : Platform) where
  unfoldable pub push : DueHeapEntry → DueHeap → p.World → Bool × DueHeap × p.World
  push entry heap m =
      let r = push_back p p.size_of_due_entry entry heap.entries m in
      if r.ok
      then (
        true,
        record { entries = record (r.array) { items = push_entries r.array.items } },
        r.world,
      )
      else (false, record { entries = r.array }, r.world)

unfoldable pub empty : DueHeap → Bool
empty heap = length heap.entries.items == 0

unfoldable pub top : DueHeap → DueHeapEntry
top heap = at heap.entries.items 0

unfoldable pub pop : DueHeap → DueHeapEntry × DueHeap
pop heap = (
  at heap.entries.items 0,
  record { entries = record (heap.entries) { items = pop_entries heap.entries.items } },
)
