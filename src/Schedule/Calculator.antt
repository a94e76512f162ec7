-- ===== src/Schedule/Calculator.antt =====
-- schedule/schedule_calculator.cpp: `validate`, and the searches of `computeNext`. The out parameter
-- `outNextUtc` is the value under `some`; `none` is `false`, which leaves it unwritten. A `for` loop
-- recurs on the rounds left.
pub mod Angles
pub mod Cron
pub mod Valid
pub mod Sun
use esp_scheduler.Prelude.{
  ◌+◌, ◌-◌, ◌*◌, ◌/◌, ◌%◌, ◌^◌, ◌&&◌, ◌||◌, ◌==◌, if◌then◌else◌, ℕ, zero, suc, bit_and, Bool, true,
  false, not, Option, none, some, leb, ℤ, pos, negsuc, pos_part, ltb_ℤ, leb_ℤ,
}
use esp_scheduler.Platform.{Platform}
use esp_scheduler.Schedule.Field.{ScheduleField, matches}
use esp_scheduler.Schedule.Spec.{
  ScheduleKind, cron, one_shot_utc, sunrise_kind, sunset_kind, moon_phase_angle_kind,
  moon_illumination_kind, ScheduleSpec,
}
use Angles.{
  value_within_periodic_window, unwrap_angle, segment_intersects_range,
  segment_intersects_periodic_window, at_least, at_most,
}

abbrev pub max_search_minutes : ℕ
max_search_minutes = 366 * 24 * 60

abbrev pub max_sun_search_days : ℕ
max_sun_search_days = 732

abbrev pub max_moon_search_minutes : ℕ
max_moon_search_minutes = 62 * 24 * 60

-- `allowedMask`, for bounds from 0 to 63.
unfoldable pub allowed_mask : ℕ → ℕ → ℕ
allowed_mask min max =
    if leb 63 max
    then 2 ^ 64 - 1
    else bit_and (2 ^ (max + 1) - 1) (2 ^ 64 - 1 - (if min == 0 then 0 else 2 ^ min - 1))

unfoldable pub field_within_range : ScheduleField → ℕ → ℕ → Bool
unfolding allowed_mask
field_within_range field min max =
    if field.is_any
    then true
    else not (field.mask == 0) && not (bit_and field.mask (allowed_mask min max) == 0)

-- How `dayOfMonth` and `dayOfWeek` combine: both where one is "any", either where none is.
unfoldable pub day_ok : ScheduleField → ScheduleField → ℤ → ℤ → Bool
day_ok dom dow day weekday =
    let dom_ok = matches dom day in
    let dow_ok = matches dow weekday in
    if dom.is_any && dow.is_any
    then true
    else if dom.is_any
    then dow_ok
    else if dow.is_any
    then dom_ok
    else dom_ok || dow_ok

module _ (p : Platform) where
  open p use {DateTime, Double}

  unfoldable pub resolved_schedule_kind : ScheduleSpec p → ScheduleKind
  resolved_schedule_kind spec = elim spec.kind [
    | cron ↦ if spec.is_one_shot then one_shot_utc else cron
    | kind ↦ kind
  ]

  unfoldable pub round_to_next_minute : DateTime → DateTime
  round_to_next_minute from_utc =
      let rounded =
        if ltb_ℤ (pos 0) (p.second_utc from_utc)
        then p.add_minutes from_utc (pos 1)
        else from_utc in
      p.set_time_of_day_utc rounded (p.hour_utc rounded) (p.minute_utc rounded) (pos 0)

  -- `minutesIntoDay` at the cursor.
  unfoldable pub minutes_into_day : DateTime → ℤ
  minutes_into_day cursor = p.difference_in_minutes cursor (p.start_of_day_local cursor)

  -- The condition of the loop's `return true`, for a cursor that lies in its day.
  unfoldable pub cron_ok : ScheduleSpec p → DateTime → ℕ → Bool
  cron_ok spec cursor into_day =
      (matches spec.month (p.month_local cursor)
        && (matches spec.hour (pos (into_day / 60)) && matches spec.minute (pos (into_day % 60))))
      && day_ok spec.day_of_month spec.day_of_week (p.day_local cursor) (p.weekday_local cursor)

  unfoldable pub search_cron : ℕ → ScheduleSpec p → DateTime → Option DateTime
  search_cron zero spec cursor = none
  search_cron (suc left) spec cursor =
      let rest = search_cron left spec (p.add_minutes cursor (pos 1)) in
      let into_day = minutes_into_day cursor in
      let n = pos_part into_day in
      if ltb_ℤ into_day (pos 0)
      then rest
      else if cron_ok spec cursor n
      then some (p.set_time_of_day_local cursor (pos (n / 60)) (pos (n % 60)) (pos 0))
      else rest

  unfoldable pub compute_next_cron_occurrence : ScheduleSpec p → DateTime → Option DateTime
  compute_next_cron_occurrence spec from_utc =
      search_cron max_search_minutes spec (round_to_next_minute from_utc)

  -- One day of the sun search: the candidate, unless the cycle is unknown or the time is past.
  unfoldable pub sun_candidate : Bool → ScheduleSpec p → DateTime → DateTime → Option DateTime
  sun_candidate sunrise spec rounded cursor =
      elim (if sunrise then p.sunrise cursor else p.sunset cursor) [
        | none ↦ none
        | some value ↦
            let candidate = p.add_minutes value spec.sun_offset_minutes in
            if p.is_before candidate rounded then none else some candidate
      ]

  -- The days left and the day's offset.
  unfoldable pub search_sun : ℕ → ℕ → Bool → ScheduleSpec p → DateTime → DateTime → Option DateTime
  search_sun zero offset sunrise spec rounded start_of_day = none
  search_sun (suc left) offset sunrise spec rounded start_of_day =
      elim (sun_candidate sunrise spec rounded (p.add_days start_of_day (pos offset))) [
        | some candidate ↦ some candidate
        | none ↦ search_sun left (suc offset) sunrise spec rounded start_of_day
      ]

  unfoldable pub compute_next_sun_occurrence : ScheduleSpec p → DateTime → Bool → Option DateTime
  compute_next_sun_occurrence spec from_utc sunrise =
      let rounded = round_to_next_minute from_utc in
      search_sun max_sun_search_days 0 sunrise spec rounded (p.start_of_day_local rounded)

  unfoldable pub crossed_angle : ScheduleSpec p → Double → Double → Bool
  crossed_angle spec previous current =
      let center = p.of_int spec.moon_phase_angle_degrees in
      let tolerance = p.of_int spec.moon_phase_tolerance_degrees in
      not (value_within_periodic_window p previous center tolerance)
      && segment_intersects_periodic_window p previous current center tolerance

  unfoldable pub search_moon_phase : ℕ → ScheduleSpec p → Double → DateTime → Option DateTime
  search_moon_phase zero spec previous current = none
  search_moon_phase (suc left) spec previous current = elim (p.moon_phase current) [
    | none ↦ none
    | some (angle, _) ↦
        let unwrapped = unwrap_angle p previous (p.of_int angle) in
        let rest = search_moon_phase left spec unwrapped (p.add_minutes current (pos 1)) in
        if crossed_angle spec previous unwrapped then some current else rest
  ]

  unfoldable pub compute_next_moon_phase_occurrence : ScheduleSpec p → DateTime → Option DateTime
  compute_next_moon_phase_occurrence spec from_utc =
      let rounded = round_to_next_minute from_utc in
      elim (p.moon_phase (p.add_minutes rounded (negsuc 0))) [
        | none ↦ none
        | some (angle, _) ↦ search_moon_phase max_moon_search_minutes spec (p.of_int angle) rounded
      ]

  unfoldable pub percent_of : Double → Double
  percent_of illumination = p.mul illumination (p.of_int (pos 100))

  -- `!wasInside && segmentIntersectsRange(...)`
  unfoldable pub entered_window : ScheduleSpec p → Double → Double → Bool
  entered_window spec previous current =
      let target = spec.moon_illumination_target_percent in
      let tolerance = spec.moon_illumination_tolerance_percent in
      let min_window = p.sub target tolerance in
      let max_window = p.add target tolerance in
      not (at_least p previous min_window && at_most p previous max_window)
      && segment_intersects_range p previous current min_window max_window

  unfoldable pub search_illumination : ℕ → ScheduleSpec p → Double → DateTime → Option DateTime
  search_illumination zero spec previous current = none
  search_illumination (suc left) spec previous current = elim (p.moon_phase current) [
    | none ↦ none
    | some (_, illumination) ↦
        let percent = percent_of illumination in
        let rest = search_illumination left spec percent (p.add_minutes current (pos 1)) in
        if entered_window spec previous percent then some current else rest
  ]

  unfoldable pub compute_next_moon_illumination_occurrence :
      ScheduleSpec p → DateTime → Option DateTime
  compute_next_moon_illumination_occurrence spec from_utc =
      let rounded = round_to_next_minute from_utc in
      elim (p.moon_phase (p.add_minutes rounded (negsuc 0))) [
        | none ↦ none
        | some (_, illumination) ↦
            search_illumination max_moon_search_minutes spec (percent_of illumination) rounded
      ]

  unfoldable pub validate : ScheduleSpec p → Bool
  unfolding resolved_schedule_kind
  validate spec = elim (resolved_schedule_kind spec) [
    | one_shot_utc ↦ true
    | cron ↦
        field_within_range spec.minute 0 59
        && (field_within_range spec.hour 0 23
            && (field_within_range spec.day_of_month 1 31
                && (field_within_range spec.month 1 12 && field_within_range spec.day_of_week 0 6)))
    | sunrise_kind ↦
        leb_ℤ (negsuc 1439) spec.sun_offset_minutes && leb_ℤ spec.sun_offset_minutes (pos 1440)
    | sunset_kind ↦
        leb_ℤ (negsuc 1439) spec.sun_offset_minutes && leb_ℤ spec.sun_offset_minutes (pos 1440)
    | moon_phase_angle_kind ↦
        (leb_ℤ (pos 0) spec.moon_phase_angle_degrees
          && leb_ℤ spec.moon_phase_angle_degrees (pos 359))
        && (leb_ℤ (pos 0) spec.moon_phase_tolerance_degrees
            && leb_ℤ spec.moon_phase_tolerance_degrees (pos 30))
    | moon_illumination_kind ↦
        let target = spec.moon_illumination_target_percent in
        let tolerance = spec.moon_illumination_tolerance_percent in
        (p.is_finite target && p.is_finite tolerance)
        && ((p.less_equal (p.of_int (pos 0)) target && p.less_equal target (p.of_int (pos 100)))
            && (p.less (p.of_int (pos 0)) tolerance && p.less_equal tolerance (p.of_int (pos 50))))
  ]

  unfoldable pub compute_next : ScheduleSpec p → DateTime → Option DateTime
  unfolding resolved_schedule_kind
  compute_next spec from_utc = elim (resolved_schedule_kind spec) [
    | one_shot_utc ↦ some spec.once_at_utc
    | cron ↦ compute_next_cron_occurrence spec from_utc
    | sunrise_kind ↦ compute_next_sun_occurrence spec from_utc true
    | sunset_kind ↦ compute_next_sun_occurrence spec from_utc false
    | moon_phase_angle_kind ↦ compute_next_moon_phase_occurrence spec from_utc
    | moon_illumination_kind ↦ compute_next_moon_illumination_occurrence spec from_utc
  ]
