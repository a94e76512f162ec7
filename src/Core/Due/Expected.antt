-- ===== src/Core/Due/Expected.antt =====
-- What should become of a job of core/scheduler_core.cpp that waits for its next time, by its schedule alone.
use esp_scheduler.Prelude.{
  ◌≡◌, ◌⊎◌, ◌&&◌, if◌then◌else◌, Bool, true, false, not, Option, none, some, refl, ap, sym, ◌∙◌,
  inl, inr, ltb, Bool-cases,
}
use esp_scheduler.Platform.{Platform}
use esp_scheduler.Core.Job.{JobRecord, runs_once}
use esp_scheduler.Schedule.Calculator.{compute_next}

module _ (p : Platform) where
  open p use {DateTime}

  -- When a job is to run next, counted from the time that was noted when its slot was put into the list.
  abbrev pub next_time : JobRecord p → Option DateTime
  next_time r =
      if runs_once r
      then some r.schedule.once_at_utc
      else compute_next p r.schedule r.schedule_from_utc

  abbrev pub is_schedulable : JobRecord p → Bool
  is_schedulable r = (r.occupied && not r.canceled) && (not r.paused && not (ltb 0 r.running_count))

  -- The record of a job that has been looked at: of one that is not to run, and of one that is, with its
  -- next time or with none.
  abbrev pub idle : JobRecord p → JobRecord p
  idle r = record r { pending_schedule = false; has_next = false }

  abbrev pub timed : JobRecord p → Option DateTime → JobRecord p
  timed r none = record r { pending_schedule = false; refresh_pending = false; has_next = false }
  timed r (some t) = record r {
    pending_schedule = false;
    refresh_pending = false;
    next_run_utc = t;
    has_next = true;
  }

  -- The record that a job should have once its slot has been taken out of the list.
  abbrev pub expected : JobRecord p → JobRecord p
  expected r = if is_schedulable r then timed r (next_time r) else idle r

  abbrev pub without_next : JobRecord p → JobRecord p
  without_next r = record r { has_next = false }

  -- That record, or where the heap had no memory for it the same without a next run.
  abbrev pub Settled : JobRecord p → JobRecord p → Type 0
  Settled before after = (after ≡ expected before) ⊎ (after ≡ without_next (expected before))

  expected-timed : (r : JobRecord p) → is_schedulable r ≡ true → expected r ≡ timed r (next_time r)
  expected-timed r h = rw h refl

  expected-idle : (r : JobRecord p) → is_schedulable r ≡ false → expected r ≡ idle r
  expected-idle r h = rw h refl

  -- A record that differs from another in nothing that `expected` reads.
  timed-again :
      (r : JobRecord p) (o : Option DateTime)
      → (is_schedulable (timed r o) ≡ is_schedulable r)
        × (next_time (timed r o) ≡ next_time r)
        × (timed (timed r o) o ≡ timed r o)
        × (is_schedulable (without_next (timed r o)) ≡ is_schedulable r)
        × (next_time (without_next (timed r o)) ≡ next_time r)
        × (timed (without_next (timed r o)) o ≡ timed r o)
  unfolding runs_once
  timed-again r none = (refl, refl, refl, refl, refl, refl)
  timed-again r (some t) = (refl, refl, refl, refl, refl, refl)

  expected-again : (r : JobRecord p) → expected (expected r) ≡ expected r
  expected-again r = elim (Bool-cases (is_schedulable r)) [
    | inl runs ↦
        let n = next_time r in
        let e = expected-timed r runs in
        let (same, same_time, twice, s₁, t₁, u₁) = timed-again r n in
        ap expected e
        ∙ expected-timed (timed r n) (same ∙ runs)
        ∙ ap (timed (timed r n)) same_time
        ∙ twice
        ∙ sym e
    | inr rests ↦
        let e = expected-idle r rests in ap expected e ∙ expected-idle (idle r) rests ∙ sym e
  ]

  expected-without_next : (r : JobRecord p) → expected (without_next (expected r)) ≡ expected r
  expected-without_next r = elim (Bool-cases (is_schedulable r)) [
    | inl runs ↦
        let n = next_time r in
        let e = expected-timed r runs in
        let (s₁, t₁, u₁, same, same_time, twice) = timed-again r n in
        ap (λ x. expected (without_next x)) e
        ∙ expected-timed (without_next (timed r n)) (same ∙ runs)
        ∙ ap (timed (without_next (timed r n))) same_time
        ∙ twice
        ∙ sym e
    | inr rests ↦
        let e = expected-idle r rests in
        ap (λ x. expected (without_next x)) e ∙ expected-idle (without_next (idle r)) rests ∙ sym e
  ]

  expected-Settled : (r r' : JobRecord p) → Settled r r' → expected r' ≡ expected r
  expected-Settled r r' (inl v) = ap expected v ∙ expected-again r
  expected-Settled r r' (inr v) = ap expected v ∙ expected-without_next r

  pub Settled-again : (r r' r'' : JobRecord p) → Settled r r' → Settled r' r'' → Settled r r''
  Settled-again r r' r'' v (inl w) = inl (w ∙ expected-Settled r r' v)
  Settled-again r r' r'' v (inr w) = inr (w ∙ ap without_next (expected-Settled r r' v))
