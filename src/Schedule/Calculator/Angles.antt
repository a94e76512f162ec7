-- ===== src/Schedule/Calculator/Angles.antt =====
-- The helpers of schedule/schedule_calculator.cpp on angles and percentages, over the platform's
-- `double`.
use esp_scheduler.Prelude.{
  ◌&&◌, if◌then◌else◌, ◌+ℤ◌, ◌-ℤ◌, ℕ, zero, suc, Bool, true, false, ℤ, pos, negsuc, pos_part,
}
use esp_scheduler.Platform.{Platform}

module _ (p : Platform) where
  open p use {Double}

  abbrev pub full_circle : Double
  full_circle = p.of_int (pos 360)

  unfoldable pub normalize_angle_360 : Double → Double
  normalize_angle_360 angle =
      let normalized = p.fmod angle full_circle in
      if p.less normalized (p.of_int (pos 0)) then p.add normalized full_circle else normalized

  unfoldable pub unwrap_angle : Double → Double → Double
  unfolding normalize_angle_360
  unwrap_angle previous_unwrapped current_wrapped =
      let delta = p.sub current_wrapped (normalize_angle_360 previous_unwrapped) in
      p.add previous_unwrapped (
        if p.less (p.of_int (pos 180)) delta
        then p.sub delta full_circle
        else if p.less delta (p.of_int (negsuc 179))
        then p.add delta full_circle
        else delta)

  -- `std::min` and `std::max`
  abbrev pub minimum : Double → Double → Double
  minimum a b = if p.less b a then b else a

  abbrev pub maximum : Double → Double → Double
  maximum a b = if p.less a b then b else a

  unfoldable pub value_within_periodic_window : Double → Double → Double → Bool
  value_within_periodic_window value center tolerance =
      let remainder = p.fmod (p.fabs (p.sub value center)) full_circle in
      let wrapped =
        if p.less remainder (p.of_int (pos 0)) then p.add remainder full_circle else remainder in
      p.less_equal (minimum wrapped (p.sub full_circle wrapped)) (p.add tolerance p.epsilon)

  -- `x >= bound - kComparisonEpsilon` and `x <= bound + kComparisonEpsilon`
  abbrev pub at_least : Double → Double → Bool
  at_least x bound = p.less_equal (p.sub bound p.epsilon) x

  abbrev pub at_most : Double → Double → Bool
  at_most x bound = p.less_equal x (p.add bound p.epsilon)

  unfoldable pub segment_intersects_range : Double → Double → Double → Double → Bool
  segment_intersects_range a b min_value max_value =
      at_least (maximum a b) min_value && at_most (minimum a b) max_value

  -- The periods left, and the next one.
  unfoldable pub some_period : ℕ → ℤ → Double → Double → Double → Double → Bool
  some_period zero period lo hi center tolerance = false
  some_period (suc left) period lo hi center tolerance =
      let shift = p.mul (p.of_int period) full_circle in
      let rest = some_period left (period +ℤ pos 1) lo hi center tolerance in
      if segment_intersects_range lo hi (p.add (p.sub center tolerance) shift)
        (p.add (p.add center tolerance) shift)
      then true
      else rest

  -- The loop runs once for each period from the first to the last.
  unfoldable pub segment_intersects_periodic_window : Double → Double → Double → Double → Bool
  unfolding some_period ◌+ℤ◌ ◌-ℤ◌
  segment_intersects_periodic_window a b center tolerance =
      let lo = minimum a b in
      let hi = maximum a b in
      let first = p.floor (p.div (p.sub lo (p.add center tolerance)) full_circle) -ℤ pos 1 in
      let last = p.ceil (p.div (p.sub hi (p.sub center tolerance)) full_circle) +ℤ pos 1 in
      some_period (pos_part (last +ℤ pos 1 -ℤ first)) first lo hi center tolerance
