-- ===== src/Core/Array.antt =====
-- `SchedulerArray` of core/runtime_containers.h, and `schedulerAllocate` of scheduler_allocator.h. An
-- array is its contents and its capacity; constructing, moving and destroying elements leaves no
-- trace. `operator[]` is `get_or` and `set` on the contents: the callers keep indices in range.
use esp_scheduler.Prelude.{
  ◌-◌, ◌*◌, ◌/◌, ◌≡◌, ◌⊎◌, ◌∷◌, ◌++◌, ◌==◌, if◌then◌else◌, [], ℕ, Bool, true, false, List, arith,
  ltb, leb, length, get_or, init,
}
use esp_scheduler.Platform.{Platform}

pub record SchedulerArray (A : Type 0) : Type 0 where
  pub items : List A
  pub capacity : ℕ

abbrev pub empty_array : {A : Type 0} → SchedulerArray A
empty_array = record { items = []; capacity = 0 }

-- What an operation that may allocate leaves: its answer, the array and the allocator.
pub record Pushed (p : Platform) (A : Type 0) : Type 0 where
  pub ok : Bool
  pub array : SchedulerArray A
  pub world : p.World

-- `schedulerAllocate<T>(count)`, for elements of `size` bytes: whether there is a block.
unfoldable pub scheduler_allocate : (p : Platform) → ℕ → ℕ → p.World → Bool × p.World
scheduler_allocate p size count m =
    if count == 0
    then (false, m)
    else if ltb (p.size_max / size) count
    then (false, m)
    else p.allocate (count * size) m

module _ (p : Platform) {A : Type 0} (size : ℕ) where
  unfoldable pub reserve : ℕ → SchedulerArray A → p.World → Pushed p A
  unfolding scheduler_allocate
  reserve requested a m =
      let (granted, m') = scheduler_allocate p size requested m in
      if leb requested a.capacity
      then record { ok = true; array = a; world = m }
      else if granted
      then record {
        ok = true;
        array = record a { capacity = requested };
        world = p.deallocate (a.capacity * size) m';
      }
      else record { ok = false; array = a; world = m' }

  abbrev pub append_item : A → Pushed p A → Pushed p A
  append_item value r =
      if r.ok
      then record r { array = record (r.array) { items = r.array.items ++ value ∷ [] } }
      else r

  -- `pushBack`, by way of `emplaceBack`.
  unfoldable pub push_back : A → SchedulerArray A → p.World → Pushed p A
  unfolding reserve
  push_back value a m =
      let next_capacity = if a.capacity == 0 then 4 else a.capacity * 2 in
      append_item value (
        if length a.items == a.capacity
        then reserve next_capacity a m
        else record { ok = true; array = a; world = m })

  -- A push adds the value at the end, or leaves the contents as they were.
  pub push_back_lem :
      (value : A) (a : SchedulerArray A) (m : p.World)
      → (((push_back value a m).ok ≡ true)
          × ((push_back value a m).array.items ≡ a.items ++ value ∷ []))
        ⊎ (((push_back value a m).ok ≡ false) × ((push_back value a m).array ≡ a))
  unfolding push_back
  push_back_lem value a m = ground arith

module _ {A : Type 0} where
  unfoldable pub pop_back : SchedulerArray A → SchedulerArray A
  pop_back a = record a { items = init a.items }

  unfoldable pub clear : SchedulerArray A → SchedulerArray A
  clear a = record a { items = [] }

  -- The last entry, `array[array.size() - 1]`.
  abbrev pub last_or : List A → A → A
  last_or xs d = get_or xs (length xs - 1) d
