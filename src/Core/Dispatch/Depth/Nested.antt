-- ===== src/Core/Dispatch/Depth/Nested.antt =====
-- `dispatchOne` and `handleCompletion` of core/scheduler_core.cpp come to an end.
use esp_scheduler.Prelude.{
  ◌+◌, ◌-◌, ◌%◌, ◌^◌, ◌≤◌, ◌≡◌, ℕ, zero, suc, refl, inl, inr, Bool, true, false, arith, Bool-cases,
  pos,
}
use esp_scheduler.Platform.{Platform}
use esp_scheduler.Core.Job.{JobInvocation, runs_once}
use esp_scheduler.Core.Scheduler.{Core, job_at, set_job}
use esp_scheduler.Core.Dispatch.{
  Executors, depth, invocation_of, submit_inline, complete_with, begin_inline, dispatch_one,
}
use esp_scheduler.Core.Dispatch.Depth.{NotQueued, set_off, set-NotQueued, reschedule-NotQueued}
use esp_scheduler.Core.Dispatch.Depth.Calls.{apply_calls-NotQueued}

module _ (p : Platform) (executors : Executors p) (s : ℕ) where
  open p use {DateTime}

  begin_inline-NotQueued :
      (c : Core p) → NotQueued p s c → NotQueued p s (begin_inline p executors c s)
  unfolding begin_inline
  begin_inline-NotQueued c q =
      let r₀ = job_at p c s in
      let r = record r₀ { running_count = (r₀.running_count + 1) % 2 ^ 16 } in
      elim (Bool-cases (runs_once r)) [
        | inl once ↦ rw once (set-NotQueued p s c s _ q (inr refl))
        | inr again ↦
            rw again (reschedule-NotQueued p s c s r (p.add_minutes r₀.next_run_utc (pos 1)) q refl)
      ]

  submit_inline-NotQueued :
      (invocation : JobInvocation) (c : Core p)
      → NotQueued p s c
      → NotQueued p s (submit_inline p executors invocation c)
  unfolding submit_inline
  submit_inline-NotQueued invocation c q =
      let called = executors.callback_calls invocation c.world in
      apply_calls-NotQueued p s called.0 (record c { world = called.1 }) q

  -- Without a deferred run, a completion dispatches none.
  complete_with-same :
      (f g : ℕ → DateTime → Core p → Core p) (now : DateTime) (c : Core p)
      → NotQueued p s c
      → complete_with p executors f s now c ≡ complete_with p executors g s now c
  unfolding complete_with
  complete_with-same f g now c q = rw q refl

  -- A completion dispatches a deferred run in a state where none is deferred any more.
  complete_with-agrees :
      (f g : ℕ → DateTime → Core p → Core p) (now : DateTime) (c : Core p)
      → ((d : Core p) → NotQueued p s d → f s now d ≡ g s now d)
      → complete_with p executors f s now c ≡ complete_with p executors g s now c
  unfolding complete_with
  complete_with-agrees f g now c same =
      let r₀ = job_at p c s in
      let r = record r₀ { running_count = r₀.running_count - 1; queued_while_running = false } in
      rw (same (set_job p c s r) (set_off p s c r refl)) refl

  dispatch_one_settled :
      (d e : ℕ) (deferred : Bool) (now : DateTime) (c : Core p)
      → NotQueued p s c
      → dispatch_one p executors (suc d) deferred s now c
        ≡ dispatch_one p executors (suc e) deferred s now c
  unfolding dispatch_one
  dispatch_one_settled d e deferred now c q =
      let started =
        submit_inline-NotQueued (invocation_of p s (job_at p c s)) (begin_inline p executors c s)
          (begin_inline-NotQueued c q) in
      let c' =
        submit_inline p executors (invocation_of p s (job_at p c s))
          (begin_inline p executors c s) in
      rw
        (complete_with-same (dispatch_one p executors d true) (dispatch_one p executors e true) now
          c' started)
        refl

  -- The calls of `dispatchOne` and `handleCompletion` nest at most twice: from two units of fuel on, more
  -- of it changes nothing, whichever jobs the callbacks add, cancel, pause, resume or refresh. A callback
  -- that calls `tick` or handles completions is not among them.
  pub dispatch_one-depth :
      (d : ℕ) (deferred : Bool) (now : DateTime) (c : Core p)
      → 2 ≤ d
      → dispatch_one p executors d deferred s now c
        ≡ dispatch_one p executors depth deferred s now c
  unfolding dispatch_one
  dispatch_one-depth zero deferred now c h = absurd (omega arith)
  dispatch_one-depth (suc zero) deferred now c h = absurd (omega arith)
  dispatch_one-depth (suc (suc d)) deferred now c h =
      rw
        (complete_with-agrees (dispatch_one p executors (suc d) true)
          (dispatch_one p executors 2 true) now
          (submit_inline p executors (invocation_of p s (job_at p c s))
            (begin_inline p executors c s))
          (λ c q. dispatch_one_settled d 1 true now c q))
        refl
