-- ===== src/Service/InTime.antt =====
-- When the wait of the task of service/scheduler_service.cpp ends, against the next run of a job.
use esp_scheduler.Prelude.{
  ◌*◌, ◌+◌, pos_part, neg_part, ◌≡◌, ℕ, true, Option, arith, ℤ, pos, inl, inr, ◌⊎◌, Bool-cases,
  ◌≤ℤ◌, ◌<ℤ◌, ◌+ℤ◌, leb_ℤ,
}
use esp_scheduler.Platform.{Platform}
use esp_scheduler.Freertos.{Queues}
use esp_scheduler.Core.Scheduler.{Core, clock_valid, job_at}
use esp_scheduler.Core.Due.{next_due_epoch}
use esp_scheduler.Core.Dispatch.{Executors, dispatch_due}
use esp_scheduler.Core.Wakeup.{live}
use esp_scheduler.Core.Wakeup.Next.{
  Earliest, earliest, none_due, next_epoch_of, next_due_epoch-Earliest,
}
use esp_scheduler.Core.Sound.{IsSound, dispatch_due-IsSound}
use esp_scheduler.Service.Wait.{next_local_midnight, next_wake_ticks, next_wake_ticks-WaitsUpTo}
use esp_scheduler.Service.{SchedulerService, dispatch_and_wait}

plus_parts :
    (a b : ℤ)
    → pos_part (a +ℤ b) + (neg_part a + neg_part b) ≡ (pos_part a + pos_part b) + neg_part (a +ℤ b)
unfolding ◌+ℤ◌
plus_parts a b = ground arith

-- What goes by before a wait is added to its end.
shifted : (a s e t : ℤ) → a +ℤ s ≤ℤ t → (a +ℤ e) +ℤ s ≤ℤ t +ℤ e
shifted a s e t h =
    omega (arith, plus_parts a s, plus_parts a e, plus_parts (a +ℤ e) s, plus_parts t e)

module _ (p : Platform) (q : Queues) where
  open p use {DateTime}

  -- A wait of so many ticks that begins some seconds after `now` ends by a time: it is none at all, or its
  -- own seconds do not lead past it.
  abbrev pub EndsBy : DateTime → ℕ → ℤ → ℕ → Type 0
  EndsBy now elapsed time ticks =
      (ticks ≡ 0)
      ⊎ ((seconds : ℕ) × (ticks ≡ q.pd_ms_to_ticks (seconds * 1000))
          × ((p.epoch_seconds now +ℤ pos elapsed) +ℤ pos seconds ≤ℤ time))

  Earliest-EndsBy :
      (c : Core p) (now : DateTime) (next_due : Option ℤ) (idle_ticks elapsed j : ℕ)
      → Earliest p c next_due
      → p.epoch_seconds now <ℤ next_local_midnight p q now
      → next_local_midnight p q now ≤ℤ p.epoch_seconds now +ℤ pos 172800
      → live p (job_at p c j) ≡ true
      → EndsBy now elapsed
          (next_epoch_of p c j +ℤ pos elapsed)
          (next_wake_ticks p q now next_due idle_ticks)
  Earliest-EndsBy c now _ idle_ticks elapsed j (earliest i is_live least) ahead near h =
      let due = next_epoch_of p c i in
      let (at_once, later) = next_wake_ticks-WaitsUpTo p q now due idle_ticks ahead near in
      elim (Bool-cases (leb_ℤ due (p.epoch_seconds now))) [
        | inl passed ↦ inl (at_once (ground arith))
        | inr future ↦
            let (seconds, ticks, some_time, bounded, by_due, by_midnight, which) =
              later (ground arith) in
            inr (seconds, ticks, shifted _ _ _ _ (ground (arith, least j h)))
      ]
  Earliest-EndsBy c now _ idle_ticks elapsed j (none_due quiet) ahead near h =
      ground (arith, quiet j)

  -- Where the clock is valid and the next local midnight is ahead by at most two days of the time that
  -- was read before a dispatch, the wait after the dispatch ends no later than the next run of any job
  -- that then has one, but for the seconds that have gone by between that reading and the wait: by these
  -- it may end too late, and by no more.
  pub dispatch_and_wait-EndsBy :
      (date_now : p.World → DateTime × p.World) (executors : Executors p) (rounds : ℕ)
      (now : DateTime) (elapsed : ℕ) (s : SchedulerService p q) (j : ℕ)
      → IsSound p s.core
      → clock_valid p (dispatch_due p executors rounds now s.core) now ≡ true
      → p.epoch_seconds now <ℤ next_local_midnight p q now
      → next_local_midnight p q now ≤ℤ p.epoch_seconds now +ℤ pos 172800
      → live p (job_at p (dispatch_due p executors rounds now s.core) j) ≡ true
      → EndsBy now elapsed
          (next_epoch_of p (dispatch_due p executors rounds now s.core) j +ℤ pos elapsed)
          (dispatch_and_wait p q date_now executors rounds now s).0
  unfolding dispatch_and_wait
  dispatch_and_wait-EndsBy date_now executors rounds now elapsed s j sound valid ahead near h =
      let c = dispatch_due p executors rounds now s.core in
      let sound' = dispatch_due-IsSound p executors rounds now s.core sound in
      rw (valid, dispatch_and_wait)
        (Earliest-EndsBy c now (next_due_epoch p c).0 (q.pd_ms_to_ticks 1000) elapsed j
          (next_due_epoch-Earliest p c sound'.wakes) ahead near h)
