-- ===== src/Schedule/Calculator/Valid.antt =====
-- What `ScheduleCalculator::validate` accepts.
use native.Mathlib.Nat.{one-le-pow}
use esp_scheduler.Prelude.{
  ◌+◌, ◌-◌, ◌^◌, ◌≤◌, ◌<◌, ◌≡◌, ◌↔◌, ◌&&◌, ◌||◌, ℕ, inl, inr, true, false, arith, ltb, leb,
  Bool-cases, pos,
}
use esp_scheduler.Prelude.Bits.{
  test_bit, test_bit-interval, test_bit-bit_and, bit_and-ne-zero, bit_and-two_pow,
  ne-zero_of_test_bit,
}
use esp_scheduler.Platform.{Platform}
use esp_scheduler.Schedule.Field.{ScheduleField, matches}
use esp_scheduler.Schedule.Spec.{ScheduleSpec, cron}
use esp_scheduler.Schedule.Calculator.{allowed_mask, field_within_range, validate}

complement_low : (n i : ℕ) → n ≤ 64 → test_bit (2 ^ 64 - 1 - (2 ^ n - 1)) i ≡ (leb n i && ltb i 64)
complement_low n i h =
    let whole : 2 ^ 64 - 1 - (2 ^ n - 1) ≡ 2 ^ 64 - 2 ^ n = omega (arith, one-le-pow n 2) in
    rw whole (test_bit-interval i n 64 h)

-- Below 63 the mask holds the positions from `min` to `max`.
test_bit-allowed_mask :
    (min max i : ℕ)
    → min ≤ max
    → max < 63
    → test_bit (allowed_mask min max) i ≡ (leb min i && leb i max)
unfolding allowed_mask
test_bit-allowed_mask min max i order bound =
    let upper = test_bit-interval i 0 (max + 1) (omega arith) in
    let lower = complement_low min i (omega arith) in
    let lowest = complement_low 0 i (omega arith) in
    let zero_low : min ≡ 0 → 2 ^ min ≡ 1 = λ e. rw e in
    ground (
      arith,
      upper,
      lower,
      lowest,
      test_bit-bit_and (2 ^ (max + 1) - 1) (2 ^ 64 - 1 - (2 ^ min - 1)) i,
      test_bit-bit_and (2 ^ (max + 1) - 1) (2 ^ 64 - 1 - 0) i,
    )

-- The field admits some value from `min` to `max`.
abbrev pub Admits : ScheduleField → ℕ → ℕ → Type 0
Admits field min max = (v : ℕ) × (min ≤ v) × (v ≤ max) × (matches field (pos v) ≡ true)

matches_bit :
    (field : ScheduleField) (v : ℕ)
    → v ≤ 63
    → matches field (pos v) ≡ (field.is_any || test_bit field.mask v)
unfolding matches
matches_bit field v h = ground (arith, bit_and-two_pow field.mask v)

-- `fieldWithinRange` asks for one admitted value of the range.
pub field_within_range_iff :
    (field : ScheduleField) (min max : ℕ)
    → min ≤ max
    → max < 63
    → (field_within_range field min max ≡ true) ↔ Admits field min max
field_within_range_iff field min max order bound = (
  λ h. elim (Bool-cases field.is_any) [
    | inl every_value ↦
        (min, omega arith, order, ground (arith, matches_bit field min (omega arith)))
    | inr listed ↦
        let (v, in_field, in_range) =
          (bit_and-ne-zero field.mask (allowed_mask min max)).0
            (unfold field_within_range in ground arith) in
        let bounds = test_bit-allowed_mask min max v order bound in
        let v_min : min ≤ v = ground arith in
        let v_max : v ≤ max = ground arith in
        (v, v_min, v_max, ground (arith, matches_bit field v (omega arith)))
  ],
  λ w. elim (Bool-cases field.is_any) [
    | inl every_value ↦ unfold field_within_range in ground arith
    | inr listed ↦
        let bit : test_bit field.mask w.0 ≡ true =
          ground (arith, matches_bit field w.0 (omega arith), w.3) in
        let nonempty = ne-zero_of_test_bit field.mask w.0 bit in
        let allowed : test_bit (allowed_mask min max) w.0 ≡ true =
          ground (arith, test_bit-allowed_mask min max w.0 order bound, w.1, w.2) in
        let meet = (bit_and-ne-zero field.mask (allowed_mask min max)).1 (w.0, bit, allowed) in
        unfold field_within_range in ground (arith, meet)
  ],
)

-- The ranges of the calendar.
pub record FieldsAdmit {p : Platform} (spec : ScheduleSpec p) : Type 0 where
  pub minute : Admits spec.minute 0 59
  pub hour : Admits spec.hour 0 23
  pub day_of_month : Admits spec.day_of_month 1 31
  pub month : Admits spec.month 1 12
  pub day_of_week : Admits spec.day_of_week 0 6

-- `validate` accepts a recurring cron schedule exactly when each of its five fields admits a value
-- of the calendar's range.
pub validate-cron_iff :
    (p : Platform) (spec : ScheduleSpec p)
    → spec.kind ≡ cron
    → spec.is_one_shot ≡ false
    → (validate p spec ≡ true) ↔ FieldsAdmit spec
unfolding validate
validate-cron_iff p spec k once =
    let minutes = field_within_range_iff spec.minute 0 59 (omega arith) (omega arith) in
    let hours = field_within_range_iff spec.hour 0 23 (omega arith) (omega arith) in
    let doms = field_within_range_iff spec.day_of_month 1 31 (omega arith) (omega arith) in
    let months = field_within_range_iff spec.month 1 12 (omega arith) (omega arith) in
    let dows = field_within_range_iff spec.day_of_week 0 6 (omega arith) (omega arith) in
    (
      λ h. record {
        minute = minutes.0 (ground arith);
        hour = hours.0 (ground arith);
        day_of_month = doms.0 (ground arith);
        month = months.0 (ground arith);
        day_of_week = dows.0 (ground arith);
      },
      λ a. ground (
        arith,
        minutes.1 a.minute,
        hours.1 a.hour,
        doms.1 a.day_of_month,
        months.1 a.month,
        dows.1 a.day_of_week,
      ),
    )
