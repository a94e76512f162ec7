-- ===== src/Tests/Containers.antt =====
-- The heap and the index on the sample platform, with memory and without.
use mathlib.Core.List.{Mem}
use esp_scheduler.Prelude.{
  ◌≡◌, ◌⊎◌, ◌∷◌, ◌==◌, if◌then◌else◌, ◌≤ℤ◌, [], ℕ, refl, true, false, none, some, Perm, arith, pos,
}
use esp_scheduler.Tests.Sample.{sample}
use esp_scheduler.Core.Array.{push_back, scheduler_allocate}
use esp_scheduler.Core.DueHeap.{DueHeapEntry, DueHeap, push, pop, push_entries}
use esp_scheduler.Core.DueHeap.Order.{IsHeap}
use esp_scheduler.Core.DueHeap.Laws.{push-IsHeap, pop-IsHeap}
use esp_scheduler.Core.IdIndex.{
  IdIndex, empty_index, find_position, next_capacity, home, next, get, remove, set_id, rehash,
}
use esp_scheduler.Core.IdIndex.Probe.{IsValid}
use esp_scheduler.Core.IdIndex.Rehash.{SameMap, rehash-SameMap}
use esp_scheduler.Core.IdIndex.Laws.{is_some, get-remove, Set, Set-IsValid, set_id-Set}

abbrev due_at : ℕ → ℕ → DueHeapEntry
due_at t slot = record { next_epoch = pos t; slot_index = slot; generation = 1 }

abbrev two_due : DueHeap
two_due = record { entries = record { items = due_at 60 0 ∷ due_at 120 1 ∷ []; capacity = 4 } }

two_due-IsHeap : IsHeap two_due.entries.items
two_due-IsHeap = grind arith

-- The entry that is due first comes to the top.
pushed_to_top :
    (push sample (due_at 30 2) two_due 0).1.entries.items
    ≡ due_at 30 2 ∷ due_at 120 1 ∷ due_at 60 0 ∷ []
unfolding push push_back push_entries
pushed_to_top = refl

push_example :
    (((push sample (due_at 30 2) two_due 0).0 ≡ true)
      × IsHeap (push sample (due_at 30 2) two_due 0).1.entries.items
      × Perm
          (push sample (due_at 30 2) two_due 0).1.entries.items
          (due_at 30 2 ∷ two_due.entries.items))
    ⊎ (((push sample (due_at 30 2) two_due 0).0 ≡ false)
        × ((push sample (due_at 30 2) two_due 0).1 ≡ two_due))
push_example = push-IsHeap sample (due_at 30 2) two_due 0 two_due-IsHeap

pop_example :
    IsHeap (pop two_due).1.entries.items
    × Perm ((pop two_due).0 ∷ (pop two_due).1.entries.items) two_due.entries.items
    × ((e : DueHeapEntry)
        → Mem e two_due.entries.items
        → (pop two_due).0.next_epoch ≤ℤ e.next_epoch)
pop_example = pop-IsHeap two_due (omega arith) two_due-IsHeap

empty_index-IsValid : IsValid empty_index
empty_index-IsValid = record {
  reached = λ i h o. absurd (omega arith);
  unique = λ i j id h k a b. absurd (omega arith);
  nonzero = λ i h o. absurd (omega arith);
}

-- The tables after id 7 and then id 15 were stored.
abbrev pub one_id : IdIndex
one_id = (set_id sample 7 0 empty_index 1).1

abbrev two_ids : IdIndex
two_ids = (set_id sample 15 1 one_id 1).1

pub one_id-IsValid : IsValid one_id
one_id-IsValid =
    Set-IsValid sample 7 0 empty_index (set_id-Set sample 7 0 empty_index 1 empty_index-IsValid)

two_ids-IsValid : IsValid two_ids
two_ids-IsValid = Set-IsValid sample 15 1 one_id (set_id-Set sample 15 1 one_id 1 one_id-IsValid)

lookups :
    (get two_ids 7 ≡ some 0)
    × (get two_ids 15 ≡ some 1)
    × (get (remove two_ids 7).1 7 ≡ none)
    × ((set_id sample 7 0 empty_index 0).0 ≡ false)
unfolding set_id get find_position rehash scheduler_allocate next_capacity home next remove
lookups = (refl, refl, refl, refl)

set_id_example : Set one_id 15 1 (set_id sample 15 1 one_id 1).0 (set_id sample 15 1 one_id 1).1
set_id_example = set_id-Set sample 15 1 one_id 1 one_id-IsValid

get-remove_example :
    IsValid (remove two_ids 7).1
    × ((remove two_ids 7).0 ≡ is_some (get two_ids 7))
    × ((q : ℕ) → get (remove two_ids 7).1 q ≡ (if 7 == q then none else get two_ids q))
get-remove_example = get-remove two_ids 7 two_ids-IsValid

rehash_example : SameMap two_ids (rehash sample 16 two_ids 1).1
rehash_example = rehash-SameMap sample 16 two_ids 1 two_ids-IsValid
