-- ===== src/Core/IdIndex.antt =====
-- `SchedulerIdIndex` of core/runtime_containers.h: job ids to slots, in a table with open addressing.
-- The block `entries_` is a list, whose length is `capacity_`; no block is the empty list. Ids are
-- `uint32_t`. A probe loop recurs on the rounds left, and answers with a position.
pub mod Probe
pub mod Insert
pub mod Write
pub mod Assign
pub mod Rehash
pub mod Laws
use esp_scheduler.Prelude.{
  ◌+◌, ◌-◌, ◌*◌, ◌%◌, ◌^◌, ◌||◌, ◌∷◌, ◌==◌, if◌then◌else◌, [], ℕ, zero, suc, bit_and, Bool, true,
  false, Option, none, some, List, map, ltb, leb, length, get_or, set, replicate,
}
use mathlib.Core.Option
use esp_scheduler.Platform.{Platform}
use esp_scheduler.Core.Array.{scheduler_allocate}

pub data EntryState : Type 0 where
  empty occupied deleted : EntryState

pub record Entry : Type 0 where
  pub job_id : ℕ
  pub slot_index : ℕ
  pub state : EntryState

-- `Entry{}`
abbrev pub no_entry : Entry
no_entry = record { job_id = 0; slot_index = 0; state = empty }

pub record IdIndex : Type 0 where
  pub entries : List Entry
  pub size : ℕ
  pub deleted_count : ℕ

abbrev pub empty_index : IdIndex
empty_index = record { entries = []; size = 0; deleted_count = 0 }

abbrev pub at : List Entry → ℕ → Entry
at es i = get_or es i no_entry

unfoldable pub hash : ℕ → ℕ
hash job_id = job_id * 2654435761 % 2 ^ 32

-- `hash(jobId) & mask` and `(index + 1) & mask`
unfoldable pub home : ℕ → ℕ → ℕ
unfolding hash
home capacity job_id = bit_and (hash job_id) (capacity - 1)

unfoldable pub next : ℕ → ℕ → ℕ
next capacity index = bit_and (index + 1) (capacity - 1)

-- The loop of `get` and of `remove`: the position of the id, up to the first empty entry.
unfoldable pub find_loop : ℕ → List Entry → ℕ → ℕ → Option ℕ
find_loop zero es job_id index = none
find_loop (suc left) es job_id index =
    let rest = find_loop left es job_id (next (length es) index) in
    elim (at es index).state [
      | empty ↦ none
      | occupied ↦ if (at es index).job_id == job_id then some index else rest
      | deleted ↦ rest
    ]

unfoldable pub find_position : IdIndex → ℕ → Option ℕ
unfolding find_loop
find_position t job_id =
    if length t.entries == 0 || job_id == 0
    then none
    else find_loop (length t.entries) t.entries job_id (home (length t.entries) job_id)

unfoldable pub get : IdIndex → ℕ → Option ℕ
get t job_id = Option.map (λ i. (at t.entries i).slot_index) (find_position t job_id)

unfoldable pub remove : IdIndex → ℕ → Bool × IdIndex
remove t job_id = elim (find_position t job_id) [
  | none ↦ (false, t)
  | some i ↦ (
    true,
    record t {
      entries = set t.entries i (record { job_id = 0; slot_index = 0; state = deleted });
      size = t.size - 1;
      deleted_count = t.deleted_count + 1;
    },
  )
]

-- Where `insertOrAssign` writes: the entry that it takes when it meets an empty one, the entry of the
-- id, or the deleted entry that it is left with when the loop ends.
pub data Target : Type 0 where
  take_at assign_at reuse_at : ℕ → Target
  no_room : Target

-- `first` is `firstDeleted`, which is `capacity_` for none.
unfoldable pub insert_loop : ℕ → List Entry → ℕ → ℕ → ℕ → Target
insert_loop zero es job_id index first = if first == length es then no_room else reuse_at first
insert_loop (suc left) es job_id index first =
    let past_deleted =
      insert_loop left es job_id (next (length es) index)
        (if first == length es then index else first) in
    let past_other = insert_loop left es job_id (next (length es) index) first in
    elim (at es index).state [
      | empty ↦ take_at (if first == length es then index else first)
      | deleted ↦ past_deleted
      | occupied ↦ if (at es index).job_id == job_id then assign_at index else past_other
    ]

abbrev pub is_deleted : EntryState → Bool
is_deleted deleted = true
is_deleted _ = false

-- The writes of `insertOrAssign`; `none` is `false`.
unfoldable pub write_target : IdIndex → ℕ → ℕ → Target → Option IdIndex
write_target t job_id slot_index no_room = none
write_target t job_id slot_index (assign_at i) =
    some
      (record t { entries = set t.entries i (record (at t.entries i) { slot_index = slot_index }) })
write_target t job_id slot_index (take_at i) = some (record {
  entries = set t.entries i (record { job_id = job_id; slot_index = slot_index; state = occupied });
  size = t.size + 1;
  deleted_count =
      if is_deleted (at t.entries i).state then t.deleted_count - 1 else t.deleted_count;
})
write_target t job_id slot_index (reuse_at i) = some (record {
  entries = set t.entries i (record { job_id = job_id; slot_index = slot_index; state = occupied });
  size = t.size + 1;
  deleted_count = t.deleted_count - 1;
})

unfoldable pub insert_or_assign : IdIndex → ℕ → ℕ → Option IdIndex
unfolding insert_loop write_target
insert_or_assign t job_id slot_index =
    let capacity = length t.entries in
    write_target t job_id slot_index
      (insert_loop capacity t.entries job_id (home capacity job_id) capacity)

-- The loop of `rehash` over the old entries.
unfoldable pub refill : List Entry → IdIndex → Option IdIndex
unfolding insert_or_assign
refill [] t = some t
refill (e ∷ es) t = elim e.state [
  | occupied ↦ elim (insert_or_assign t e.job_id e.slot_index) [
    | none ↦ none
    | some t' ↦ refill es t'
  ]
  | _ ↦ refill es t
]

unfoldable pub count_deleted : List Entry → ℕ
count_deleted [] = 0
count_deleted (e ∷ es) = (if is_deleted e.state then 1 else 0) + count_deleted es

unfoldable pub next_capacity : ℕ → ℕ
next_capacity current = if current == 0 then 8 else current * 2

module _ (p : Platform) where
  unfoldable pub rehash : ℕ → IdIndex → p.World → Bool × IdIndex × p.World
  unfolding refill count_deleted
  rehash new_capacity t m =
      let (granted, m') = scheduler_allocate p p.size_of_index_entry new_capacity m in
      let fresh : IdIndex = record {
        entries = replicate new_capacity no_entry;
        size = 0;
        deleted_count = 0;
      } in
      if granted
      then elim (refill t.entries fresh) [
        | some t' ↦ (true, t', p.deallocate (length t.entries * p.size_of_index_entry) m')
        | none ↦ (
          false,
          record t { deleted_count = count_deleted t.entries },
          p.deallocate (new_capacity * p.size_of_index_entry) m',
        )
      ]
      else (false, t, m')

  unfoldable pub ensure_capacity_for_insert : IdIndex → p.World → Bool × IdIndex × p.World
  ensure_capacity_for_insert t m =
      let capacity = length t.entries in
      if capacity == 0
      then rehash (next_capacity capacity) t m
      else if leb (capacity * 7) ((t.size + t.deleted_count + 1) * 10)
      then rehash (next_capacity capacity) t m
      else if ltb t.size t.deleted_count
      then rehash capacity t m
      else (true, t, m)

  -- `set` after the capacity is ensured.
  abbrev pub assign_in : ℕ → ℕ → Bool × IdIndex × p.World → Bool × IdIndex × p.World
  assign_in job_id slot_index (ok, t, m) =
      if ok
      then elim (insert_or_assign t job_id slot_index) [
        | none ↦ (false, t, m)
        | some t' ↦ (true, t', m)
      ]
      else (false, t, m)

  unfoldable pub set_id : ℕ → ℕ → IdIndex → p.World → Bool × IdIndex × p.World
  unfolding ensure_capacity_for_insert
  set_id job_id slot_index t m =
      if job_id == 0
      then (false, t, m)
      else assign_in job_id slot_index (ensure_capacity_for_insert t m)
