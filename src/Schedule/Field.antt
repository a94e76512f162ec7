-- ===== src/Schedule/Field.antt =====
-- schedule/schedule_field.h and schedule_field.cpp: one field of a cron schedule, a set of values
-- from 0 to 63 as a 64-bit mask, or "any". An `int` is an integer; the sum `value + step` of a loop
-- is taken without the overflow that C++ leaves undefined.
pub mod Laws
use esp_scheduler.Prelude.{
  ℕ, zero, suc, ◌+◌, ◌^◌, bit_and, bit_or, Bool, true, false, not, ◌||◌, List, [], ◌∷◌, ℤ, pos_part,
  pos, ltb, leb, ltb_ℤ, leb_ℤ, ◌==◌, if◌then◌else◌,
}

pub record ScheduleField : Type 0 where
  pub mask : ℕ
  pub is_any : Bool

-- `ScheduleField field;`
abbrev pub no_values : ScheduleField
no_values = record { mask = 0; is_any = false }

unfoldable pub any : ScheduleField
any = record no_values { is_any = true }

-- `1ULL << value`, for a value from 0 to 63.
abbrev pub bit_of : ℤ → ℕ
bit_of value = 2 ^ pos_part value

-- `value < 0 || value > 63`
abbrev pub out_of_mask : ℤ → Bool
out_of_mask value = ltb_ℤ value (pos 0) || ltb_ℤ (pos 63) value

unfoldable pub only : ℤ → ScheduleField
only value = if out_of_mask value then no_values else record no_values { mask = bit_of value }

-- The loops of `range`, `every` and `rangeEvery`: `for (; value <= to; value += step)`.
unfoldable pub fill : ℕ → ℕ → ℕ → ℕ → ℕ → ℕ
fill zero value to step mask = mask
fill (suc fuel) value to step mask =
    let rest = fill fuel (value + step) to step (bit_or mask (2 ^ value)) in
    if leb value to then rest else mask

-- Values are at most 63 and steps at least 1, so 64 rounds reach the end of each loop.
abbrev pub rounds : ℕ
rounds = 64

unfoldable pub range : ℤ → ℤ → ScheduleField
range from to =
    if ltb_ℤ from (pos 0) || (ltb_ℤ to (pos 0) || (ltb_ℤ to from || ltb_ℤ (pos 63) to))
    then no_values
    else record no_values { mask = fill rounds (pos_part from) (pos_part to) 1 0 }

unfoldable pub every : ℤ → ScheduleField
every step =
    if leb_ℤ step (pos 0)
    then no_values
    else record no_values { mask = fill rounds 0 63 (pos_part step) 0 }

-- Where `to + step` is no `int`, the source's loop overflows, and this does not speak of it.
unfoldable pub range_every : ℤ → ℤ → ℤ → ScheduleField
range_every from to step =
    if leb_ℤ step (pos 0)
      || (ltb_ℤ from (pos 0) || (ltb_ℤ to (pos 0) || (ltb_ℤ to from || ltb_ℤ (pos 63) to)))
    then no_values
    else record no_values { mask = fill rounds (pos_part from) (pos_part to) (pos_part step) 0 }

-- The loop of `list`. One bad value clears the mask and ends the loop.
unfoldable pub collect : List ℤ → ℕ → ℕ
collect [] mask = mask
collect (value ∷ values) mask =
    let rest = collect values (bit_or mask (bit_of value)) in if out_of_mask value then 0 else rest

-- `values` and `count` are the array's contents; a null pointer is an empty array.
unfoldable pub list : List ℤ → ScheduleField
unfolding collect
list [] = no_values
list (value ∷ values) = record no_values { mask = collect (value ∷ values) 0 }

unfoldable pub matches : ScheduleField → ℤ → Bool
matches field value =
    if field.is_any
    then true
    else if out_of_mask value
    then false
    else not (bit_and field.mask (bit_of value) == 0)

unfoldable pub empty : ScheduleField → Bool
empty field = if field.is_any then false else field.mask == 0
