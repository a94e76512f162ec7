-- ===== src/Schedule/Spec/Laws.antt =====
-- What the helpers of schedule/schedule_spec.cpp put into the day fields.
use esp_scheduler.Prelude.{
  ◌+◌, ◌%◌, ◌≤◌, ◌<◌, ◌≡◌, ◌≢◌, ◌&&◌, ◌||◌, ◌∷◌, ◌==◌, if◌then◌else◌, [], ℕ, zero, suc, refl, ap,
  true, false, List, arith, ltb, leb, ℤ, pos, pos_part, ltb_ℤ, eq_ℤ,
}
use esp_scheduler.Prelude.Bits.{test_bit, bit_and-two_pow}
use esp_scheduler.Platform.{Platform}
use esp_scheduler.Schedule.Field.{matches, any}
use esp_scheduler.Schedule.Field.Laws.{matches-list, matches-only, all_in_mask, contains}
use esp_scheduler.Schedule.Spec.{
  days_of_mask, day_field, clamp_day, weekly_at_local, monthly_on_day_local,
}

days_of_mask-all_in_mask :
    (left bit mask : ℕ) → left + bit ≤ 64 → all_in_mask (days_of_mask left bit mask) ≡ true
unfolding days_of_mask
days_of_mask-all_in_mask zero bit mask h = refl
days_of_mask-all_in_mask (suc left) bit mask h =
    ground (arith, days_of_mask-all_in_mask left (bit + 1) mask (omega arith))

contains-days_of_mask :
    (left bit mask x : ℕ)
    → contains (pos x) (days_of_mask left bit mask)
      ≡ ((leb bit x && ltb x (bit + left)) && test_bit mask x)
unfolding days_of_mask
contains-days_of_mask zero bit mask x = ground arith
contains-days_of_mask (suc left) bit mask x = ground (
  arith,
  contains-days_of_mask left (bit + 1) mask x,
  bit_and-two_pow mask bit,
  bit_and-two_pow mask x,
)

-- The seven lowest bits, one by one.
low_bits_zero : (mask : ℕ) → ((x : ℕ) → x < 7 → test_bit mask x ≡ false) → mask % 128 ≡ 0
unfolding test_bit
low_bits_zero mask h = ground (
  arith,
  h 0 (omega arith),
  h 1 (omega arith),
  h 2 (omega arith),
  h 3 (omega arith),
  h 4 (omega arith),
  h 5 (omega arith),
  h 6 (omega arith),
)

low_bit_nonzero : (x mask : ℕ) → x < 7 → test_bit mask x ≡ true → mask % 128 ≢ 0
unfolding test_bit
low_bit_nonzero zero mask h bit = ground arith
low_bit_nonzero (suc zero) mask h bit = ground arith
low_bit_nonzero (suc (suc zero)) mask h bit = ground arith
low_bit_nonzero (suc (suc (suc zero))) mask h bit = ground arith
low_bit_nonzero (suc (suc (suc (suc zero)))) mask h bit = ground arith
low_bit_nonzero (suc (suc (suc (suc (suc zero))))) mask h bit = ground arith
low_bit_nonzero (suc (suc (suc (suc (suc (suc zero)))))) mask h bit = ground arith
low_bit_nonzero (suc (suc (suc (suc (suc (suc (suc x))))))) mask h bit = absurd (omega arith)

matches-day_field :
    (days : List ℤ) (mask x : ℕ)
    → days_of_mask 7 0 mask ≡ days
    → x < 7
    → matches (day_field days) (pos x) ≡ (mask % 128 == 0 || test_bit mask x)
unfolding day_field any matches
matches-day_field [] mask x e h =
    let none_set : (y : ℕ) → y < 7 → test_bit mask y ≡ false =
      λ y b. ground (arith, contains-days_of_mask 7 0 mask y, ap (contains (pos y)) e) in
    ground (arith, low_bits_zero mask none_set)
matches-day_field (d ∷ ds) mask x e h =
    let in_mask : all_in_mask (d ∷ ds) ≡ true =
      ground (arith, days_of_mask-all_in_mask 7 0 mask, ap all_in_mask e) in
    let listed = λ (y : ℕ). ap (contains (pos y)) e in
    let head_set : (pos_part d < 7) × (test_bit mask (pos_part d) ≡ true) =
      ground (arith, contains-days_of_mask 7 0 mask (pos_part d), listed (pos_part d)) in
    ground (
      arith,
      matches-list (d ∷ ds) (pos x),
      contains-days_of_mask 7 0 mask x,
      listed x,
      low_bit_nonzero (pos_part d) mask head_set.0 head_set.1,
    )

-- `weeklyAtLocal` runs on the days whose bit is set, and on every day if none of the seven is.
pub weekly_at_local-days :
    (p : Platform) (mask : ℕ) (hour minute : ℤ) (x : ℕ)
    → x < 7
    → matches (weekly_at_local p mask hour minute).day_of_week (pos x)
      ≡ (mask % 128 == 0 || test_bit mask x)
unfolding weekly_at_local
weekly_at_local-days p mask hour minute x h =
    matches-day_field (days_of_mask 7 0 mask) mask x refl h

-- `monthlyOnDayLocal` runs on one day of the month: the given one, moved into 1..31.
pub monthly_on_day_local-day :
    (p : Platform) (day hour minute x : ℤ)
    → matches (monthly_on_day_local p day hour minute).day_of_month x ≡ (
        if ltb_ℤ day (pos 1)
        then eq_ℤ (pos 1) x
        else if ltb_ℤ (pos 31) day
        then eq_ℤ (pos 31) x
        else eq_ℤ day x)
unfolding monthly_on_day_local clamp_day
monthly_on_day_local-day p day hour minute x =
    ground (arith, matches-only (pos 1) x, matches-only (pos 31) x, matches-only day x)
