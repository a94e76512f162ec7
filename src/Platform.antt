-- ===== src/Platform.antt =====
-- What the scheduler calls and does not implement, as one record that the other modules take as a
-- parameter: the ESPDate library's clock arithmetic, the C++ `double`, and the allocator below
-- scheduler_allocator.h. No law is assumed of any of them here.
use esp_scheduler.Prelude.{ℕ, Bool, ℤ, Option}

pub record Platform : Type 1 where
  -- ESPDate's `DateTime`, with its field `epochSeconds` and the value `DateTime{}`.
  pub DateTime : Type 0
  pub epoch_seconds : DateTime → ℤ
  pub zero_time : DateTime
  pub second_utc : DateTime → ℤ
  pub minute_utc : DateTime → ℤ
  pub hour_utc : DateTime → ℤ
  pub add_seconds : DateTime → ℤ → DateTime
  pub add_minutes : DateTime → ℤ → DateTime
  pub add_days : DateTime → ℤ → DateTime
  pub set_time_of_day_utc : DateTime → ℤ → ℤ → ℤ → DateTime
  pub set_time_of_day_local : DateTime → ℤ → ℤ → ℤ → DateTime
  pub month_local : DateTime → ℤ
  pub day_local : DateTime → ℤ
  pub weekday_local : DateTime → ℤ
  pub start_of_day_local : DateTime → DateTime
  pub difference_in_minutes : DateTime → DateTime → ℤ
  pub is_before : DateTime → DateTime → Bool
  pub is_equal : DateTime → DateTime → Bool
  -- `SunCycleResult`: its `value` where `ok` holds.
  pub sunrise : DateTime → Option DateTime
  pub sunset : DateTime → Option DateTime
  -- `double`. `of_int` is a cast or an integral literal; `epsilon` is 1e-9 and `one_half` 0.5.
  pub Double : Type 0
  pub of_int : ℤ → Double
  pub epsilon : Double
  pub one_half : Double
  pub add : Double → Double → Double
  pub sub : Double → Double → Double
  pub mul : Double → Double → Double
  pub div : Double → Double → Double
  pub fmod : Double → Double → Double
  pub fabs : Double → Double
  -- `static_cast<int64_t>(std::floor(x))`, and the same of `std::ceil`.
  pub floor : Double → ℤ
  pub ceil : Double → ℤ
  pub is_finite : Double → Bool
  pub less : Double → Double → Bool
  pub less_equal : Double → Double → Bool
  -- `MoonPhaseResult`: `angleDegrees` and `illumination` where `ok` holds.
  pub moon_phase : DateTime → Option (ℤ × Double)
  -- The state of what lies outside: the allocator, and the tasks and queues behind the executors. A
  -- request for a block of so many bytes, which may be refused, and the return of such a block. `size_max` is the largest `size_t`.
  pub World : Type 0
  pub allocate : ℕ → World → Bool × World
  pub deallocate : ℕ → World → World
  pub size_max : ℕ
  -- `sizeof` of the types that the scheduler keeps in arrays.
  pub size_of_job : ℕ
  pub size_of_due_entry : ℕ
  pub size_of_slot : ℕ
  pub size_of_index_entry : ℕ
  pub size_of_pointer : ℕ
  -- FreeRTOS's `tskNO_AFFINITY`.
  pub no_affinity : ℤ
