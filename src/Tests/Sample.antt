-- ===== src/Tests/Sample.antt =====
-- A small platform: times are minutes on a calendar of one endless January, local time is UTC, the sun
-- rises at 06:00, and the allocator grants as many requests as its state says.
use esp_scheduler.Prelude.{
  ◌+◌, ◌-◌, ◌*◌, ◌/◌, ◌%◌, ◌^◌, ◌==◌, ◌+ℤ◌, ℕ, zero, suc, Bool, true, false, some, ltb, ℤ, pos,
  negsuc, pos_part, ltb_ℤ, leb_ℤ, sub_ℕ,
}
use esp_scheduler.Platform.{Platform}

abbrev pub shift : ℕ → ℤ → ℕ
shift t (pos k) = t + k
shift t (negsuc k) = t - suc k

abbrev pub at_time : ℕ → ℤ → ℤ → ℕ
at_time t h m = t / 1440 * 1440 + pos_part h * 60 + pos_part m

abbrev pub grant : ℕ → Bool × ℕ
grant zero = (false, zero)
grant (suc m) = (true, m)

abbrev pub sample : Platform
sample = record {
  DateTime = ℕ;
  epoch_seconds = λ t. pos (t * 60);
  zero_time = 0;
  second_utc = λ t. pos 0;
  minute_utc = λ t. pos (t % 60);
  hour_utc = λ t. pos (t / 60 % 24);
  add_seconds = λ t s. t + pos_part s / 60;
  add_minutes = shift;
  add_days = λ t d. t + pos_part d * 1440;
  set_time_of_day_utc = λ t h m s. at_time t h m;
  set_time_of_day_local = λ t h m s. at_time t h m;
  month_local = λ t. pos 1;
  day_local = λ t. pos (t / 1440 + 1);
  weekday_local = λ t. pos ((t / 1440 + 4) % 7);
  start_of_day_local = λ t. t / 1440 * 1440;
  difference_in_minutes = λ a b. sub_ℕ a b;
  is_before = λ a b. ltb a b;
  is_equal = λ a b. a == b;
  sunrise = λ t. some (at_time t (pos 6) (pos 0));
  sunset = λ t. some (at_time t (pos 18) (pos 0));
  Double = ℤ;
  of_int = λ x. x;
  epsilon = pos 0;
  one_half = pos 0;
  add = λ a b. a +ℤ b;
  sub = λ a b. a;
  mul = λ a b. a;
  div = λ a b. a;
  fmod = λ a b. a;
  fabs = λ a. a;
  floor = λ a. a;
  ceil = λ a. a;
  is_finite = λ a. true;
  less = ltb_ℤ;
  less_equal = leb_ℤ;
  moon_phase = λ t. some (pos (t / 1440 * 12 % 360), pos 0);
  World = ℕ;
  allocate = λ n m. grant m;
  deallocate = λ n m. m;
  size_max = 2 ^ 32 - 1;
  size_of_job = 200;
  size_of_due_entry = 24;
  size_of_slot = 4;
  size_of_index_entry = 12;
  size_of_pointer = 4;
  no_affinity = pos 0;
}
