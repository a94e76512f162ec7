-- ===== src/Schedule/Calculator/Cron.antt =====
-- The cron search of schedule/schedule_calculator.cpp finds the first minute that the fields admit.
use esp_scheduler.Prelude.{
  ◌/◌, ◌%◌, ◌<◌, ◌≡◌, ◌↔◌, ◌⊎◌, ◌&&◌, if◌then◌else◌, ◌≤ℤ◌, ℕ, zero, suc, inl, inr, Bool, true,
  false, not, Option, none, some, arith, Bool-cases, ℤ, pos, pos_part, ltb_ℤ,
}
use esp_scheduler.Platform.{Platform}
use esp_scheduler.Schedule.Field.{matches, ScheduleField}
use esp_scheduler.Schedule.Spec.{ScheduleSpec}
use esp_scheduler.Schedule.Calculator.{
  day_ok, cron_ok, minutes_into_day, search_cron, compute_next_cron_occurrence, max_search_minutes,
  round_to_next_minute,
}

-- The day rule of cron: a restricted field decides alone where the other is "any"; of two restricted
-- fields one is enough.
abbrev pub DayAdmitted : ScheduleField → ScheduleField → ℤ → ℤ → Type 0
DayAdmitted dom dow day weekday =
    ((dom.is_any ≡ true) × (matches dow weekday ≡ true))
    ⊎ ((dow.is_any ≡ true) × (matches dom day ≡ true))
    ⊎ ((dom.is_any ≡ false)
        × (dow.is_any ≡ false)
        × ((matches dom day ≡ true) ⊎ (matches dow weekday ≡ true)))

matches-any : (f : ScheduleField) (x : ℤ) → f.is_any ≡ true → matches f x ≡ true
unfolding matches
matches-any f x h = ground arith

pub day_ok_iff :
    (dom dow : ScheduleField) (day weekday : ℤ)
    → (day_ok dom dow day weekday ≡ true) ↔ DayAdmitted dom dow day weekday
unfolding day_ok
day_ok_iff dom dow day weekday = (
  λ h. ground (arith, matches-any dom day, matches-any dow weekday),
  λ h. ground (arith, matches-any dom day, matches-any dow weekday),
)

module _ (p : Platform) (spec : ScheduleSpec p) where
  open p use {DateTime}

  -- The local minute of the cursor is one that the schedule names.
  pub record IsOccurrence (cursor : DateTime) : Type 0 where
    pub in_day : pos 0 ≤ℤ minutes_into_day p cursor
    pub month : matches spec.month (p.month_local cursor) ≡ true
    pub hour : matches spec.hour (pos (pos_part (minutes_into_day p cursor) / 60)) ≡ true
    pub minute : matches spec.minute (pos (pos_part (minutes_into_day p cursor) % 60)) ≡ true
    pub day :
        DayAdmitted spec.day_of_month spec.day_of_week (p.day_local cursor) (p.weekday_local cursor)

  -- The time that the search returns at a cursor: its local minute, with the seconds at 0.
  abbrev pub local_minute : DateTime → DateTime
  local_minute cursor =
      let n = pos_part (minutes_into_day p cursor) in
      p.set_time_of_day_local cursor (pos (n / 60)) (pos (n % 60)) (pos 0)

  -- The cursor after `k` rounds.
  abbrev pub after : ℕ → DateTime → DateTime
  after zero cursor = cursor
  after (suc k) cursor = after k (p.add_minutes cursor (pos 1))

  -- The test that one round makes.
  abbrev accepts : DateTime → Bool
  accepts cursor =
      not (ltb_ℤ (minutes_into_day p cursor) (pos 0))
      && cron_ok p spec cursor (pos_part (minutes_into_day p cursor))

  accepts_iff : (cursor : DateTime) → (accepts cursor ≡ true) ↔ IsOccurrence cursor
  unfolding cron_ok
  accepts_iff cursor =
      let days =
        day_ok_iff spec.day_of_month spec.day_of_week (p.day_local cursor)
          (p.weekday_local cursor) in
      (
        λ h. record {
          in_day = ground arith;
          month = ground arith;
          hour = ground arith;
          minute = ground arith;
          day = days.0 (ground arith);
        },
        λ o. ground (arith, o.in_day, o.month, o.hour, o.minute, days.1 o.day),
      )

  -- What a search over `n` minutes from the cursor ends in: the first occurrence among them, or
  -- nothing where there is none.
  pub data FirstOccurrence (n : ℕ) (cursor : DateTime) : Option DateTime → Type 0 where
    found :
        (k : ℕ)
        → k < n
        → IsOccurrence (after k cursor)
        → ((j : ℕ) → j < k → ¬ IsOccurrence (after j cursor))
        → FirstOccurrence n cursor (some (local_minute (after k cursor)))
    absent : ((j : ℕ) → j < n → ¬ IsOccurrence (after j cursor)) → FirstOccurrence n cursor none

  refused : (cursor : DateTime) → accepts cursor ≡ false → ¬ IsOccurrence cursor
  refused cursor h o = cc ((accepts_iff cursor).1 o)

  -- A round that accepts nothing at its own cursor leaves the question to the next ones.
  none_before :
      (k : ℕ) (cursor : DateTime)
      → ¬ IsOccurrence cursor
      → ((j : ℕ) → j < k → ¬ IsOccurrence (after j (p.add_minutes cursor (pos 1))))
      → (j : ℕ) → j < suc k
      → ¬ IsOccurrence (after j cursor)
  none_before k cursor here rest zero h = here
  none_before k cursor here rest (suc j) h = rest j (omega arith)

  later_occurrence :
      (n : ℕ) (cursor : DateTime) {r : Option DateTime}
      → ¬ IsOccurrence cursor
      → FirstOccurrence n (p.add_minutes cursor (pos 1)) r
      → FirstOccurrence (suc n) cursor r
  later_occurrence n cursor here (found k h o before) =
      found (suc k) (omega arith) o (none_before k cursor here before)
  later_occurrence n cursor here (absent before) = absent (none_before n cursor here before)

  search_cron_round :
      (n : ℕ) (cursor : DateTime)
      → search_cron p (suc n) spec cursor ≡ (
          if accepts cursor
          then some (local_minute cursor)
          else search_cron p n spec (p.add_minutes cursor (pos 1)))
  unfolding search_cron
  search_cron_round n cursor = ground arith

  pub search_cron-FirstOccurrence :
      (n : ℕ) (cursor : DateTime) → FirstOccurrence n cursor (search_cron p n spec cursor)
  unfolding search_cron
  search_cron-FirstOccurrence zero cursor = absent (λ j h. absurd (omega arith))
  search_cron-FirstOccurrence (suc n) cursor =
      let rest = search_cron-FirstOccurrence n (p.add_minutes cursor (pos 1)) in
      rw (search_cron_round n cursor) (elim (Bool-cases (accepts cursor)) [
        | inl here ↦
            rw here
              (found 0 (omega arith) ((accepts_iff cursor).0 here) (λ j h. absurd (omega arith)))
        | inr not_here ↦ rw not_here (later_occurrence n cursor (refused cursor not_here) rest)
      ])

  -- `computeNext` on a cron schedule: of the 366 days of minutes from the next full minute on, it
  -- returns the first whose local date the schedule names, and whose minutes elapsed since the local
  -- midnight, taken as hours and minutes, it names too; it fails if there is none.
  pub compute_next_cron_occurrence-FirstOccurrence :
      (from_utc : DateTime)
      → FirstOccurrence max_search_minutes
          (round_to_next_minute p from_utc)
          (compute_next_cron_occurrence p spec from_utc)
  unfolding compute_next_cron_occurrence
  compute_next_cron_occurrence-FirstOccurrence from_utc =
      search_cron-FirstOccurrence max_search_minutes (round_to_next_minute p from_utc)
