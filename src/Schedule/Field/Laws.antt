-- ===== src/Schedule/Field/Laws.antt =====
-- What `matches` answers on the fields that schedule/schedule_field.cpp builds.
use native.Mathlib.Nat.{mod-eq_of_lt, mod-eq-sub-mod}
use esp_scheduler.Prelude.{
  ℕ, zero, suc, ◌+◌, ◌-◌, ◌%◌, ◌^◌, ◌≤◌, ◌<◌, bit_or, ◌≡◌, ◌∙◌, Bool, true, false, not, ◌&&◌, ◌||◌,
  List, [], ◌∷◌, ◌+ℤ◌, ◌≤ℤ◌, ℤ, pos_part, pos, leb, ltb_ℤ, leb_ℤ, eq_ℤ, ◌==◌, arith,
}
use esp_scheduler.Prelude.Bits.{
  test_bit, test_bit-bit_or, test_bit-two_pow, test_bit-zero, bit_and-two_pow,
}
use esp_scheduler.Schedule.Field.{
  ScheduleField, no_values, bit_of, out_of_mask, only, fill, rounds, range, every, range_every,
  collect, list, matches, empty,
}

-- On a field that is not "any", `matches` reads one bit of the mask.
pub matches-test_bit :
    (m : ℕ) (x : ℤ)
    → matches (record no_values { mask = m }) x ≡ (not (out_of_mask x) && test_bit m (pos_part x))
unfolding matches
matches-test_bit m x = ground (arith, bit_and-two_pow m (pos_part x))

-- A field that admits value `v` only.
pub matches-only : (v x : ℤ) → matches (only v) x ≡ (not (out_of_mask v) && eq_ℤ v x)
unfolding only
matches-only v x = ground (
  arith,
  matches-test_bit 0 x,
  matches-test_bit (bit_of v) x,
  test_bit-zero (pos_part x),
  test_bit-two_pow (pos_part v) (pos_part x),
)

-- The values `v`, `v + s`, `v + 2 s`, ... up to `to`.
abbrev pub in_steps : ℕ → ℕ → ℕ → ℕ → Bool
in_steps v to s x = leb v x && (leb x to && (x - v) % s == 0)

in_steps-next :
    (v to s x : ℕ) → 0 < s → v ≤ to → (v == x || in_steps (v + s) to s x) ≡ in_steps v to s x
in_steps-next v to s x s_pos h = grind (arith, mod-eq_of_lt, mod-eq-sub-mod)

test_bit-fill :
    (f v to s m x : ℕ)
    → 0 < s
    → to < v + f
    → test_bit (fill f v to s m) x ≡ (test_bit m x || in_steps v to s x)
unfolding fill
test_bit-fill zero v to s m x s_pos h = ground arith
test_bit-fill (suc f) v to s m x s_pos h = ground (
  arith,
  test_bit-fill f (v + s) to s (bit_or m (2 ^ v)) x s_pos,
  test_bit-bit_or m (2 ^ v) x,
  test_bit-two_pow v x,
  in_steps-next v to s x s_pos,
)

-- The mask of a loop, read through `matches`.
matches-fill :
    (v to s : ℕ) (x : ℤ)
    → 0 < s
    → to < v + 64
    → matches (record no_values { mask = fill rounds v to s 0 }) x
      ≡ (not (out_of_mask x) && in_steps v to s (pos_part x))
matches-fill v to s x s_pos h =
    matches-test_bit (fill rounds v to s 0) x
    ∙ ground (arith, test_bit-fill rounds v to s 0 (pos_part x) s_pos h, test_bit-zero (pos_part x))

matches-no_values : (x : ℤ) → matches no_values x ≡ false
unfolding matches
matches-no_values x = ground (arith, bit_and-two_pow 0 (pos_part x), test_bit-zero (pos_part x))

-- `range(from, to)` admits the values from `from` to `to`, and none where the bounds leave 0..63.
pub matches-range :
    (from to x : ℤ)
    → matches (range from to) x
      ≡ ((leb_ℤ (pos 0) from && leb_ℤ to (pos 63)) && (leb_ℤ from x && leb_ℤ x to))
unfolding range
matches-range from to x =
    ground
      (arith, matches-no_values x, matches-fill (pos_part from) (pos_part to) 1 x (omega arith))

-- `every(step)` admits the multiples of `step` from 0 to 63, and none for a step below 1.
pub matches-every :
    (step x : ℤ)
    → matches (every step) x
      ≡ (ltb_ℤ (pos 0) step && (not (out_of_mask x) && pos_part x % pos_part step == 0))
unfolding every
matches-every step x = ground (arith, matches-no_values x, matches-fill 0 63 (pos_part step) x)

-- `rangeEvery(from, to, step)`, where `to + step` is an `int`, so that no sum of its loop overflows, admits
-- `from`, `from + step`, ... up to `to`.
pub matches-range_every :
    (from to step x : ℤ)
    → to +ℤ step ≤ℤ pos 2147483647
    → matches (range_every from to step) x ≡ (
        (ltb_ℤ (pos 0) step && (leb_ℤ (pos 0) from && leb_ℤ to (pos 63)))
        && ((leb_ℤ from x && leb_ℤ x to) && (pos_part x - pos_part from) % pos_part step == 0))
unfolding range_every
matches-range_every from to step x no_overflow =
    ground
      (arith, matches-no_values x, matches-fill (pos_part from) (pos_part to) (pos_part step) x)

-- Every value of an array lies in 0..63.
abbrev pub all_in_mask : List ℤ → Bool
all_in_mask [] = true
all_in_mask (v ∷ vs) = not (out_of_mask v) && all_in_mask vs

abbrev pub contains : ℤ → List ℤ → Bool
contains x [] = false
contains x (v ∷ vs) = eq_ℤ v x || contains x vs

test_bit-collect :
    (vs : List ℤ) (m x : ℕ)
    → test_bit (collect vs m) x ≡ (all_in_mask vs && (test_bit m x || contains (pos x) vs))
unfolding collect
test_bit-collect [] m x = ground arith
test_bit-collect (v ∷ vs) m x = ground (
  arith,
  test_bit-zero x,
  test_bit-collect vs (bit_or m (bit_of v)) x,
  test_bit-bit_or m (bit_of v) x,
  test_bit-two_pow (pos_part v) x,
)

-- `list(values, count)` admits the array's values, and nothing once a value leaves 0..63.
pub matches-list :
    (vs : List ℤ) (x : ℤ)
    → matches (list vs) x ≡ (not (out_of_mask x) && (all_in_mask vs && contains x vs))
unfolding list
matches-list [] x = rw (matches-no_values x) (ground arith)
matches-list (v ∷ vs) x = ground (
  arith,
  matches-test_bit (collect (v ∷ vs) 0) x,
  test_bit-collect (v ∷ vs) 0 (pos_part x),
  test_bit-zero (pos_part x),
)

-- A field that `empty` holds of admits no value.
pub empty-matches : (field : ScheduleField) (x : ℤ) → empty field ≡ true → matches field x ≡ false
unfolding empty matches
empty-matches field x h =
    ground (arith, bit_and-two_pow field.mask (pos_part x), test_bit-zero (pos_part x))
