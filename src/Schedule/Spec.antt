-- ===== src/Schedule/Spec.antt =====
-- schedule/schedule_spec.h and schedule_spec.cpp: what a job's schedule says, and the helpers that
-- build one.
pub mod Laws
use esp_scheduler.Prelude.{
  ℕ, zero, suc, ◌+◌, ◌^◌, bit_and, Bool, true, false, not, List, [], ◌∷◌, ℤ, pos, ltb_ℤ, ◌==◌,
  if◌then◌else◌,
}
use esp_scheduler.Platform.{Platform}
use esp_scheduler.Schedule.Field.{ScheduleField, any, only}
use esp_scheduler.Schedule.Field

pub data ScheduleKind : Type 0 where
  cron one_shot_utc sunrise_kind sunset_kind moon_phase_angle_kind moon_illumination_kind :
      ScheduleKind

pub data MoonPhaseName : Type 0 where
  new_moon waxing_crescent first_quarter waxing_gibbous full_moon waning_gibbous last_quarter
        waning_crescent :
      MoonPhaseName

pub record ScheduleSpec (p : Platform) : Type 0 where
  pub kind : ScheduleKind
  pub is_one_shot : Bool
  pub once_at_utc : p.DateTime
  pub minute : ScheduleField
  pub hour : ScheduleField
  pub day_of_month : ScheduleField
  pub month : ScheduleField
  pub day_of_week : ScheduleField
  pub sun_offset_minutes : ℤ
  pub moon_phase_angle_degrees : ℤ
  pub moon_phase_tolerance_degrees : ℤ
  pub moon_illumination_target_percent : p.Double
  pub moon_illumination_tolerance_percent : p.Double

unfoldable pub moon_phase_angle_for_name : MoonPhaseName → ℤ
moon_phase_angle_for_name new_moon = pos 0
moon_phase_angle_for_name waxing_crescent = pos 45
moon_phase_angle_for_name first_quarter = pos 90
moon_phase_angle_for_name waxing_gibbous = pos 135
moon_phase_angle_for_name full_moon = pos 180
moon_phase_angle_for_name waning_gibbous = pos 225
moon_phase_angle_for_name last_quarter = pos 270
moon_phase_angle_for_name waning_crescent = pos 315

-- The loop of `weeklyAtLocal`, with the days gone through and those left.
unfoldable pub days_of_mask : ℕ → ℕ → ℕ → List ℤ
days_of_mask zero bit mask = []
days_of_mask (suc left) bit mask =
    let rest = days_of_mask left (bit + 1) mask in
    if bit_and mask (2 ^ bit) == 0 then rest else pos bit ∷ rest

-- `count == 0 ? ScheduleField::any() : ScheduleField::list(days, count)`
unfoldable pub day_field : List ℤ → ScheduleField
day_field [] = any
day_field (day ∷ days) = Field.list (day ∷ days)

unfoldable pub clamp_day : ℤ → ℤ
clamp_day day = if ltb_ℤ day (pos 1) then pos 1 else if ltb_ℤ (pos 31) day then pos 31 else day

module _ (p : Platform) where
  open p use {DateTime, Double}

  -- `ScheduleSpec spec;`
  unfoldable pub default_spec : ScheduleSpec p
  default_spec = record {
    kind = cron;
    is_one_shot = false;
    once_at_utc = p.zero_time;
    minute = any;
    hour = any;
    day_of_month = any;
    month = any;
    day_of_week = any;
    sun_offset_minutes = pos 0;
    moon_phase_angle_degrees = pos 0;
    moon_phase_tolerance_degrees = pos 1;
    moon_illumination_target_percent = p.of_int (pos 0);
    moon_illumination_tolerance_percent = p.one_half;
  }

  unfoldable pub once_utc : DateTime → ScheduleSpec p
  unfolding default_spec
  once_utc when_utc = record default_spec {
    kind = one_shot_utc;
    is_one_shot = true;
    once_at_utc = when_utc;
  }

  unfoldable pub daily_at_local : ℤ → ℤ → ScheduleSpec p
  unfolding default_spec
  daily_at_local hour minute = record default_spec { minute = only minute; hour = only hour }

  -- `dow_mask` is a `uint8_t`.
  unfoldable pub weekly_at_local : ℕ → ℤ → ℤ → ScheduleSpec p
  unfolding default_spec
  weekly_at_local dow_mask hour minute = record default_spec {
    minute = only minute;
    hour = only hour;
    day_of_week = day_field (days_of_mask 7 0 dow_mask);
  }

  unfoldable pub monthly_on_day_local : ℤ → ℤ → ℤ → ScheduleSpec p
  unfolding default_spec
  monthly_on_day_local day hour minute = record default_spec {
    minute = only minute;
    hour = only hour;
    day_of_month = only (clamp_day day);
  }

  unfoldable pub sunrise : ℤ → ScheduleSpec p
  unfolding default_spec
  sunrise offset = record default_spec { kind = sunrise_kind; sun_offset_minutes = offset }

  unfoldable pub sunset : ℤ → ScheduleSpec p
  unfolding default_spec
  sunset offset = record default_spec { kind = sunset_kind; sun_offset_minutes = offset }

  unfoldable pub moon_phase_angle : ℤ → ℤ → ScheduleSpec p
  unfolding default_spec
  moon_phase_angle angle tolerance = record default_spec {
    kind = moon_phase_angle_kind;
    moon_phase_angle_degrees = angle;
    moon_phase_tolerance_degrees = tolerance;
  }

  unfoldable pub moon_phase : MoonPhaseName → ℤ → ScheduleSpec p
  unfolding moon_phase_angle moon_phase_angle_for_name
  moon_phase name tolerance = moon_phase_angle (moon_phase_angle_for_name name) tolerance

  unfoldable pub moon_illumination_percent : Double → Double → ScheduleSpec p
  unfolding default_spec
  moon_illumination_percent percent tolerance = record default_spec {
    kind = moon_illumination_kind;
    moon_illumination_target_percent = percent;
    moon_illumination_tolerance_percent = tolerance;
  }

  unfoldable pub custom :
      ScheduleField → ScheduleField → ScheduleField → ScheduleField → ScheduleField → ScheduleSpec p
  unfolding default_spec
  custom minute hour dom month dow = record default_spec {
    minute = minute;
    hour = hour;
    day_of_month = dom;
    month = month;
    day_of_week = dow;
  }
