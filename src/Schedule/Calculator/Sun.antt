-- ===== src/Schedule/Calculator/Sun.antt =====
-- The sun search of schedule/schedule_calculator.cpp finds the first day with an event that is not past.
use esp_scheduler.Prelude.{
  ◌+◌, ◌<◌, ◌≡◌, if◌then◌else◌, ℕ, zero, suc, inl, inr, Bool, false, Option, none, some, arith,
  Bool-cases, Option-cases, pos,
}
use esp_scheduler.Platform.{Platform}
use esp_scheduler.Schedule.Spec.{ScheduleSpec}
use esp_scheduler.Schedule.Calculator.{
  sun_candidate, search_sun, compute_next_sun_occurrence, max_sun_search_days, round_to_next_minute,
}

module _ (p : Platform) (spec : ScheduleSpec p) (rising : Bool) where
  open p use {DateTime}

  -- The sun's event on a day, where ESPDate knows one.
  abbrev pub cycle : DateTime → Option DateTime
  cycle day = if rising then p.sunrise day else p.sunset day

  -- The event of the day, moved by the schedule's offset, is the time `t`, and `t` is not before `rounded`.
  abbrev pub EventAt : DateTime → DateTime → DateTime → Type 0
  EventAt rounded day t =
      (value : DateTime) × (cycle day ≡ some value)
      × (p.add_minutes value spec.sun_offset_minutes ≡ t)
      × (p.is_before t rounded ≡ false)

  -- The first of the days from the offset on that has such an event.
  pub data FirstEvent (rounded start : DateTime) (days offset : ℕ) : Option DateTime → Type 0 where
    event :
        (k : ℕ) (t : DateTime)
        → k < days
        → EventAt rounded (p.add_days start (pos (offset + k))) t
        → ((j : ℕ) (u : DateTime)
            → j < k
            → ¬ EventAt rounded (p.add_days start (pos (offset + j))) u)
        → FirstEvent rounded start days offset (some t)
    no_event :
        ((j : ℕ) (u : DateTime)
          → j < days
          → ¬ EventAt rounded (p.add_days start (pos (offset + j))) u)
        → FirstEvent rounded start days offset none

  sun_candidate-EventAt :
      (rounded day t : DateTime)
      → sun_candidate p rising spec rounded day ≡ some t
      → EventAt rounded day t
  unfolding sun_candidate
  sun_candidate-EventAt rounded day t e = elim (Option-cases (cycle day)) [
    | inl unknown ↦ ground arith
    | inr (value, known) ↦
        elim (Bool-cases (p.is_before (p.add_minutes value spec.sun_offset_minutes) rounded)) [
          | inl past ↦ ground arith
          | inr ahead ↦
              let same : p.add_minutes value spec.sun_offset_minutes ≡ t = ground arith in
              (value, known, same, rw same at ahead)
        ]
  ]

  EventAt-sun_candidate :
      (rounded day t : DateTime)
      → EventAt rounded day t
      → sun_candidate p rising spec rounded day ≡ some t
  unfolding sun_candidate
  EventAt-sun_candidate rounded day t (value, known, same, ahead) = ground arith

  no_event-first :
      (rounded start : DateTime) (offset n : ℕ)
      → sun_candidate p rising spec rounded (p.add_days start (pos offset)) ≡ none
      → ((j : ℕ) (u : DateTime)
          → j < n
          → ¬ EventAt rounded (p.add_days start (pos (suc offset + j))) u)
      → (j : ℕ) (u : DateTime) → j < suc n
      → ¬ EventAt rounded (p.add_days start (pos (offset + j))) u
  no_event-first rounded start offset n here rest zero u h e =
      let same : offset + 0 ≡ offset = omega arith in
      cc (here, EventAt-sun_candidate rounded (p.add_days start (pos offset)) u (rw same at e))
  no_event-first rounded start offset n here rest (suc j) u h e =
      let same : offset + suc j ≡ suc offset + j = omega arith in
      rest j u (omega arith) (rw same at e)

  later_event :
      (rounded start : DateTime) (n offset : ℕ) {r : Option DateTime}
      → sun_candidate p rising spec rounded (p.add_days start (pos offset)) ≡ none
      → FirstEvent rounded start n (suc offset) r
      → FirstEvent rounded start (suc n) offset r
  later_event rounded start n offset here (event k t h e before) =
      let same : suc offset + k ≡ offset + suc k = omega arith in
      event (suc k) t (omega arith) (rw same at e)
        (no_event-first rounded start offset k here before)
  later_event rounded start n offset here (no_event before) =
      no_event (no_event-first rounded start offset n here before)

  search_sun-FirstEvent :
      (n offset : ℕ) (rounded start : DateTime)
      → FirstEvent rounded start n offset (search_sun p n offset rising spec rounded start)
  unfolding search_sun
  search_sun-FirstEvent zero offset rounded start = no_event (λ j u h. absurd (omega arith))
  search_sun-FirstEvent (suc n) offset rounded start =
      let day = p.add_days start (pos offset) in
      let rest = search_sun-FirstEvent n (suc offset) rounded start in
      elim (Option-cases (sun_candidate p rising spec rounded day)) [
        | inl none_here ↦
            rw (none_here, search_sun) (later_event rounded start n offset none_here rest)
        | inr (t, found) ↦
            let same : offset ≡ offset + 0 = omega arith in
            let here = sun_candidate-EventAt rounded day t found in
            rw (found, search_sun)
              (event 0 t (omega arith) (rw same at here) (λ j u h. absurd (omega arith)))
      ]

  -- `computeNext` on a sun schedule: of the 732 days from the local day of the next full minute on, it
  -- returns the time of the first whose sunrise or sunset, moved by the offset, is known and is not before
  -- that minute, and fails if there is none.
  pub compute_next_sun_occurrence-FirstEvent :
      (from_utc : DateTime)
      → FirstEvent
          (round_to_next_minute p from_utc)
          (p.start_of_day_local (round_to_next_minute p from_utc))
          max_sun_search_days
          0
          (compute_next_sun_occurrence p spec from_utc rising)
  unfolding compute_next_sun_occurrence
  compute_next_sun_occurrence-FirstEvent from_utc =
      search_sun-FirstEvent max_sun_search_days 0 (round_to_next_minute p from_utc)
        (p.start_of_day_local (round_to_next_minute p from_utc))
