-- ===== src/Service/Wait.antt =====
-- `nextWakeTicks` of service/scheduler_service.cpp: how long the task waits for a command.
use esp_scheduler.Prelude.{
  ◌*◌, ◌%◌, ◌^◌, ◌≡◌, ◌≤◌, ◌<◌, if◌then◌else◌, ℕ, Option, none, some, arith, ℤ, pos, pos_part, ◌⊎◌,
  inl, inr, negsuc, Bool-cases, ◌≤ℤ◌, ◌<ℤ◌, ◌+ℤ◌, ◌-ℤ◌, ltb_ℤ, leb_ℤ,
}
use esp_scheduler.Platform.{Platform}
use esp_scheduler.Freertos.{Queues}

module _ (p : Platform) (q : Queues) where
  open p use {DateTime}

  abbrev pub next_local_midnight : DateTime → ℤ
  next_local_midnight now = p.epoch_seconds (p.start_of_day_local (p.add_days now (pos 1)))

  abbrev pub next_wake_epoch : Option ℤ → ℤ → ℤ
  next_wake_epoch none midnight = midnight
  next_wake_epoch (some due) midnight = if ltb_ℤ midnight due then midnight else due

  -- `hasWake` always holds in the end, so that `idlePollTicks` is never answered. A time ahead is
  -- more than 0 seconds, so that the cast only cuts it to 32 bits.
  unfoldable pub next_wake_ticks : DateTime → Option ℤ → ℕ → ℕ
  next_wake_ticks now next_due idle_poll_ticks =
      let wake = next_wake_epoch next_due (next_local_midnight now) in
      let wait_seconds = pos_part (wake -ℤ p.epoch_seconds now) in
      if leb_ℤ wake (p.epoch_seconds now)
      then 0
      else q.pd_ms_to_ticks (wait_seconds * 1000 % 2 ^ 32)

  -- The seconds from one time to a later one.
  seconds_ahead :
      (t w : ℤ)
      → t <ℤ w
      → w ≤ℤ t +ℤ pos 172800
      → (0 < pos_part (w -ℤ t)) × (pos_part (w -ℤ t) ≤ 172800) × (t +ℤ pos (pos_part (w -ℤ t)) ≡ w)
  unfolding ◌+ℤ◌ ◌-ℤ◌
  seconds_ahead (pos a) (pos b) h k = ground arith
  seconds_ahead (pos a) (negsuc b) h k = ground arith
  seconds_ahead (negsuc a) (pos b) h k = ground arith
  seconds_ahead (negsuc a) (negsuc b) h k = ground arith

  -- The seconds that are waited for a time ahead.
  Waits : DateTime → ℤ → ℕ → Type 0
  Waits now wake ticks =
      (seconds : ℕ) × (ticks ≡ q.pd_ms_to_ticks (seconds * 1000))
      × (0 < seconds)
      × (seconds ≤ 172800)
      × (p.epoch_seconds now +ℤ pos seconds ≡ wake)

  wait_for :
      (now : DateTime) (wake : ℤ)
      → p.epoch_seconds now <ℤ wake
      → wake ≤ℤ p.epoch_seconds now +ℤ pos 172800
      → Waits now wake (
          if leb_ℤ wake (p.epoch_seconds now)
          then 0
          else q.pd_ms_to_ticks (pos_part (wake -ℤ p.epoch_seconds now) * 1000 % 2 ^ 32))
  unfolding Waits
  wait_for now wake h k =
      let seconds = pos_part (wake -ℤ p.epoch_seconds now) in
      let (some_time, bounded, reached) = seconds_ahead (p.epoch_seconds now) wake h k in
      let whole : seconds * 1000 % 2 ^ 32 ≡ seconds * 1000 = omega arith in
      (seconds, ground (arith, whole), some_time, bounded, reached)

  -- A wait for a job that is due at some time: none where the time has come, and else some seconds, up
  -- to that time or to the next local midnight.
  abbrev pub WaitsUpTo : DateTime → ℤ → ℕ → Type 0
  WaitsUpTo now due ticks =
      (due ≤ℤ p.epoch_seconds now → ticks ≡ 0)
      × (p.epoch_seconds now <ℤ due
          → (seconds : ℕ) × (ticks ≡ q.pd_ms_to_ticks (seconds * 1000))
            × (0 < seconds)
            × (seconds ≤ 172800)
            × (p.epoch_seconds now +ℤ pos seconds ≤ℤ due)
            × (p.epoch_seconds now +ℤ pos seconds ≤ℤ next_local_midnight now)
            × ((p.epoch_seconds now +ℤ pos seconds ≡ due)
                ⊎ (p.epoch_seconds now +ℤ pos seconds ≡ next_local_midnight now)))

  -- Where the next local midnight is ahead by at most two days, the task does not wait for a job that
  -- is due, and else waits for the number of seconds to the next due time or to the midnight,
  -- whichever is earlier: more than none, past neither of them, and 172800 at most, so that
  -- the 32 bits of the milliseconds are enough.
  pub next_wake_ticks-WaitsUpTo :
      (now : DateTime) (due : ℤ) (idle_poll_ticks : ℕ)
      → p.epoch_seconds now <ℤ next_local_midnight now
      → next_local_midnight now ≤ℤ p.epoch_seconds now +ℤ pos 172800
      → WaitsUpTo now due (next_wake_ticks now (some due) idle_poll_ticks)
  unfolding next_wake_ticks Waits
  next_wake_ticks-WaitsUpTo now due idle_poll_ticks ahead near =
      let midnight = next_local_midnight now in
      elim (Bool-cases (ltb_ℤ midnight due)) [
        | inl later ↦
            let (n, ticks, some_time, bounded, reached) = wait_for now midnight ahead near in
            (
              λ h. absurd (ground arith),
              λ h. (
                n,
                rw (later, next_wake_ticks) ticks,
                some_time,
                bounded,
                ground arith,
                ground arith,
                inr reached,
              ),
            )
        | inr sooner ↦ (
          λ h. ground arith,
          λ h.
              let (n, ticks, some_time, bounded, reached) = wait_for now due h (ground arith) in
              (
                n,
                rw (sooner, next_wake_ticks) ticks,
                some_time,
                bounded,
                ground arith,
                ground arith,
                inl reached,
              ),
        )
      ]
