-- ===== src/Core/DueHeap/Laws.antt =====
-- `push` and `pop` of core/due_heap.h on a heap.
use mathlib.Core.List.{perm_middle, append-nil, Mem}
use mathlib.Core.List.Perm
use esp_scheduler.Prelude.{
  ◌+◌, ◌-◌, ◌≤◌, ◌<◌, ◌≡◌, ◌⊎◌, ◌∷◌, ◌++◌, ◌≤ℤ◌, [], ℕ, refl, inl, inr, true, false, List, Perm,
  arith, length, set, init, length-set, length-init, get_or-init, get_or-set,
}
use esp_scheduler.Platform.{Platform}
use esp_scheduler.Core.Array.{push_back_lem, last_or}
use esp_scheduler.Core.DueHeap.{
  DueHeapEntry, DueHeap, no_entry, at, parent, sift_down, pop_entries, push, pop,
}
use esp_scheduler.Core.DueHeap.Swap.{set-perm}
use esp_scheduler.Core.DueHeap.Order.{due, IsHeap, top_is_least, least_of_mem}
use esp_scheduler.Core.DueHeap.Up.{Sifted, push_entries-Sifted}
use esp_scheduler.Core.DueHeap.Down.{sift_down-Sifted}

pub last-perm : (es : List DueHeapEntry) (e : DueHeapEntry) → Perm (es ++ e ∷ []) (e ∷ es)
last-perm es e = rw (append-nil es) at (perm_middle {a = e} es [])

init-append-last :
    (es : List DueHeapEntry) → 0 < length es → init es ++ last_or es no_entry ∷ [] ≡ es
init-append-last [] h = absurd (omega arith)
init-append-last (x ∷ []) h = refl
init-append-last (x ∷ y ∷ es) h = ground (arith, init-append-last (y ∷ es) (omega arith))

module _ (es : List DueHeapEntry) (several : 2 ≤ length es) where
  -- The contents that `pop` hands to its loop: the last entry has taken the first place.
  abbrev moved : List DueHeapEntry
  moved = init (set es 0 (last_or es no_entry))

  length-moved : length moved + 1 ≡ length es
  length-moved =
      omega
        (arith, length-init (set es 0 (last_or es no_entry)), length-set es 0 (last_or es no_entry))

  moved-perm : Perm (at es 0 ∷ moved) es
  moved-perm =
      let last = last_or es no_entry in
      let size = length-set es 0 last in
      let same_last : last_or (set es 0 last) no_entry ≡ last =
        ground (arith, size, get_or-set es 0 (length (set es 0 last) - 1) last no_entry) in
      let whole : moved ++ last ∷ [] ≡ set es 0 last =
        rw same_last at (init-append-last (set es 0 last) (omega arith)) in
      let split : Perm (last ∷ moved) (set es 0 last) =
        rw whole at (Perm.symm (last-perm moved last)) in
      Perm.cons_inv (
        Perm.trans (Perm.swap (at es 0) last moved)
          (Perm.trans (Perm.cons (at es 0) split) (set-perm es 0 last (omega arith))))

  at-moved : (c : ℕ) → 0 < c → c < length moved → at moved c ≡ at es c
  at-moved c above h =
      let last = last_or es no_entry in
      ground (
        arith,
        length-moved,
        length-set es 0 last,
        get_or-init (set es 0 last) c no_entry,
        get_or-set es 0 c last no_entry,
      )

  several-Sifted : IsHeap es → Sifted moved (sift_down (length moved + 1) moved 0)
  several-Sifted heap =
      sift_down-Sifted (length moved + 1) moved 0 (omega arith) (omega (arith, length-moved))
        (record {
          ordered = λ c above h ne. ground (
            arith,
            length-moved,
            at-moved c above h,
            at-moved (parent c) (omega arith) (omega arith),
            heap c,
          );
          spared = λ c above h p above_top. absurd (omega arith);
        })

pop_entries_several :
    (es : List DueHeapEntry) (several : 2 ≤ length es)
    → pop_entries es ≡ sift_down (length (moved es several) + 1) (moved es several) 0
unfolding pop_entries
pop_entries_several es several = ground arith

-- What `pop` leaves of a heap: a heap of all the entries but the first.
pop_entries-Sifted :
    (es : List DueHeapEntry)
    → 0 < length es
    → IsHeap es
    → IsHeap (pop_entries es) × Perm (at es 0 ∷ pop_entries es) es
unfolding pop_entries
pop_entries-Sifted [] h heap = absurd (omega arith)
pop_entries-Sifted (x ∷ []) h heap = (λ c above b. absurd (omega arith), Perm.rfl)
pop_entries-Sifted (x ∷ y ∷ es) h heap =
    let (ordered, same) = several-Sifted (x ∷ y ∷ es) (omega arith) heap in
    rw (pop_entries_several (x ∷ y ∷ es) (omega arith))
      (ordered, Perm.trans (Perm.cons x same) (moved-perm (x ∷ y ∷ es) (omega arith)))

-- `push` on a heap either adds exactly the entry and keeps the order, or has no memory and leaves the
-- heap as it was.
pub push-IsHeap :
    (p : Platform) (e : DueHeapEntry) (heap : DueHeap) (m : p.World)
    → IsHeap heap.entries.items
    → (((push p e heap m).0 ≡ true)
        × IsHeap (push p e heap m).1.entries.items
        × Perm (push p e heap m).1.entries.items (e ∷ heap.entries.items))
      ⊎ (((push p e heap m).0 ≡ false) × ((push p e heap m).1 ≡ heap))
unfolding push
push-IsHeap p e heap m ordered = elim (push_back_lem p p.size_of_due_entry e heap.entries m) [
  | inl (ok, added) ↦
      let (sorted, same) = push_entries-Sifted heap.entries.items e ordered in
      inl (rw ok (rw added (refl, sorted, Perm.trans same (last-perm heap.entries.items e))))
  | inr (full, kept) ↦ inr (ground arith)
]

-- `pop` on a heap that is not empty takes out the first entry, which is due no later than any, and
-- leaves a heap of all the others.
pub pop-IsHeap :
    (heap : DueHeap)
    → 0 < length heap.entries.items
    → IsHeap heap.entries.items
    → IsHeap (pop heap).1.entries.items
      × Perm ((pop heap).0 ∷ (pop heap).1.entries.items) heap.entries.items
      × ((e : DueHeapEntry) → Mem e heap.entries.items → (pop heap).0.next_epoch ≤ℤ e.next_epoch)
unfolding pop
pop-IsHeap heap h ordered =
    let (rest, same) = pop_entries-Sifted heap.entries.items h ordered in
    (
      rest,
      same,
      least_of_mem heap.entries.items (due heap.entries.items 0)
          λ i b. top_is_least heap.entries.items i ordered b,
    )
