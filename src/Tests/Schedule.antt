-- ===== src/Tests/Schedule.antt =====
-- Schedules on the sample platform.
use esp_scheduler.Prelude.{◌+ℤ◌, ◌≡◌, ◌↔◌, ◌∷◌, [], refl, true, false, some, arith, pos, negsuc}
use esp_scheduler.Prelude.Bits.{test_bit}
use esp_scheduler.Tests.Sample.{sample}
use esp_scheduler.Schedule.Field.{matches, any, only, range, every, range_every, list}
use esp_scheduler.Schedule.Field.Laws.{
  matches-only, matches-range, matches-every, matches-range_every, matches-list,
}
use esp_scheduler.Schedule.Spec.{
  ScheduleSpec, weekly_at_local, monthly_on_day_local, daily_at_local,
}
use esp_scheduler.Schedule.Spec.Laws.{weekly_at_local-days, monthly_on_day_local-day}
use esp_scheduler.Schedule.Calculator.{
  max_search_minutes, round_to_next_minute, compute_next_cron_occurrence, search_cron, validate,
  minutes_into_day, cron_ok, day_ok, field_within_range,
}
use esp_scheduler.Schedule.Calculator.{
  search_sun, sun_candidate, compute_next_sun_occurrence, max_sun_search_days,
}
use esp_scheduler.Schedule.Calculator.Sun.{FirstEvent, compute_next_sun_occurrence-FirstEvent}
use esp_scheduler.Schedule.Spec.{sunrise, default_spec}
use esp_scheduler.Schedule.Calculator.Cron.{
  FirstOccurrence, compute_next_cron_occurrence-FirstOccurrence,
}
use esp_scheduler.Schedule.Calculator.Valid.{FieldsAdmit, validate-cron_iff}

-- Every day at 08:30.
abbrev morning : ScheduleSpec sample
unfolding daily_at_local
morning = daily_at_local sample (pos 8) (pos 30)

-- From 08:20 on, the search finds 08:30 in its eleventh round.
search_from_0820 : search_cron sample 20 morning 500 ≡ some 510
unfolding search_cron minutes_into_day cron_ok matches morning any only day_ok
search_from_0820 = refl

-- Midnight ends the day: from 23:50 on, it is the next morning.
search_past_midnight : search_cron sample 600 morning 1430 ≡ some 1950
unfolding search_cron minutes_into_day cron_ok matches morning any only day_ok
search_past_midnight = refl

cron_search_example :
    FirstOccurrence sample morning max_search_minutes
      (round_to_next_minute sample 500)
      (compute_next_cron_occurrence sample morning 500)
cron_search_example = compute_next_cron_occurrence-FirstOccurrence sample morning 500

validate_example : (validate sample morning ≡ true) ↔ FieldsAdmit morning
unfolding morning
validate_example = validate-cron_iff sample morning refl refl

morning_is_valid : validate sample morning ≡ true
unfolding validate morning field_within_range only any
morning_is_valid = refl

matches-only_example : matches (only (pos 64)) (pos 64) ≡ false
matches-only_example = matches-only (pos 64) (pos 64)

matches-range_example : matches (range (pos 5) (pos 9)) (pos 9) ≡ true
matches-range_example = matches-range (pos 5) (pos 9) (pos 9)

matches-every_example : matches (every (pos 15)) (pos 50) ≡ false
matches-every_example = matches-every (pos 15) (pos 50)

matches-range_every_example : matches (range_every (pos 3) (pos 20) (pos 5)) (pos 13) ≡ true
unfolding ◌+ℤ◌
matches-range_every_example = matches-range_every (pos 3) (pos 20) (pos 5) (pos 13) (omega arith)

matches-list_example : matches (list (pos 2 ∷ pos 70 ∷ [])) (pos 2) ≡ false
matches-list_example = matches-list (pos 2 ∷ pos 70 ∷ []) (pos 2)

weekly_example : matches (weekly_at_local sample 5 (pos 8) (pos 0)).day_of_week (pos 2) ≡ true
unfolding test_bit
weekly_example = weekly_at_local-days sample 5 (pos 8) (pos 0) 2 (omega arith)

monthly_example :
    matches (monthly_on_day_local sample (pos 40) (pos 8) (pos 0)).day_of_month (pos 31) ≡ true
monthly_example = monthly_on_day_local-day sample (pos 40) (pos 8) (pos 0) (pos 31)

-- Half an hour before the sun rises, asked for after that: it is tomorrow's.
abbrev before_sunrise : ScheduleSpec sample
before_sunrise = sunrise sample (negsuc 29)

half_past_five_tomorrow : search_sun sample 5 0 true before_sunrise 400 0 ≡ some 1770
unfolding search_sun sunrise default_spec sun_candidate
half_past_five_tomorrow = refl

sun_search_example :
    FirstEvent sample before_sunrise true
      (round_to_next_minute sample 400)
      (sample.start_of_day_local (round_to_next_minute sample 400))
      max_sun_search_days
      0
      (compute_next_sun_occurrence sample before_sunrise 400 true)
sun_search_example = compute_next_sun_occurrence-FirstEvent sample before_sunrise true 400
