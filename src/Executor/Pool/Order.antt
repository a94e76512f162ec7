-- ===== src/Executor/Pool/Order.antt =====
-- What becomes of the invocations that the pool of executors/worker_pool_executor.cpp accepts, however its
-- workers and its callers interleave.
use esp_scheduler.Prelude.{
  ◌+◌, ◌+ℤ◌, pos, ◌≡◌, ◌⊎◌, length, ◌++◌, ◌∷◌, [], ℕ, zero, suc, refl, ap, sym, ◌∙◌, Bool, true,
  false, Option, none, some, List, arith, inl, inr, Option-cases, if◌then◌else◌,
}
use mathlib.Core.List.{append_assoc, append-nil}
use esp_scheduler.Platform.{Platform}
use esp_scheduler.Freertos.{Queues, IsFifo}
use esp_scheduler.Freertos.Drain.{receive_all, run_all, enough, receive_all-run_all}
use esp_scheduler.Core.Array.{push_back, clear}
use esp_scheduler.Executor.Task.{TaskSupport, create_task_pinned}
use esp_scheduler.Executor.Completion.{ExecutorRuntime}
use esp_scheduler.Core.Job.{JobInvocation}
use esp_scheduler.Executor.Pool.{
  WorkerPoolConfig, WorkerPool, new_pool, submit, worker_round, discard, send_sentinels,
  end_workers, close_pool, start_workers, begin_pool,
}

-- The invocations among the pointers of a queue.
abbrev pub somes {ℓ} : {A : Type ℓ} → List (Option A) → List A
somes [] = []
somes (none ∷ rest) = somes rest
somes (some a ∷ rest) = a ∷ somes rest

somes-append {ℓ} : {A : Type ℓ} (xs ys : List (Option A)) → somes (xs ++ ys) ≡ somes xs ++ somes ys
somes-append [] ys = refl
somes-append (none ∷ xs) ys = somes-append xs ys
somes-append (some a ∷ xs) ys = ap (λ l. a ∷ l) (somes-append xs ys)

run_all-discard :
    (p : Platform) (q : Queues) (items : List (Option JobInvocation)) (gone : List JobInvocation)
    → run_all (discard p q) items gone ≡ gone ++ somes items
unfolding run_all
run_all-discard p q [] gone = sym (append-nil gone)
run_all-discard p q (none ∷ rest) gone = run_all-discard p q rest gone
run_all-discard p q (some a ∷ rest) gone =
    run_all-discard p q rest (gone ++ (a ∷ [])) ∙ append_assoc gone (a ∷ []) (somes rest)

List-cases {ℓ} : {A : Type ℓ} (l : List A) → (l ≡ []) ⊎ ((a : A) × (rest : List A) × (l ≡ a ∷ rest))
List-cases [] = inl refl
List-cases (a ∷ rest) = inr (a, rest, refl)

module _ (p : Platform) (q : Queues) where
  -- A pool, with the invocations that it has accepted, those that have left its queue, those that a
  -- worker has run, and whether some were thrown away: by an `end` that does not drain, or with the queue.
  pub record PoolRun : Type 0 where
    pub pool : WorkerPool p q
    pub accepted : List JobInvocation
    pub gone : List JobInvocation
    pub ran : List JobInvocation
    pub thrown_away : Bool

  -- What waits in the queue.
  abbrev pub pending_in : Option (q.Queue (Option JobInvocation)) → List JobInvocation
  pending_in none = []
  pending_in (some w) = somes (q.waiting (Option JobInvocation) w)

  abbrev pub one_more : Option JobInvocation → List JobInvocation → List JobInvocation
  one_more none l = l
  one_more (some a) l = l ++ (a ∷ [])

  abbrev pub after_submit : Bool → JobInvocation → PoolRun → PoolRun
  after_submit item_allocated invocation r =
      let (taken, pool) = submit p q item_allocated invocation r.pool in
      record r {
        pool = pool;
        accepted = if taken then r.accepted ++ (invocation ∷ []) else r.accepted;
      }

  abbrev pub after_work : PoolRun → PoolRun
  after_work r =
      let (taken, pool) = worker_round p q r.pool in
      record r { pool = pool; gone = one_more taken r.gone; ran = one_more taken r.ran }

  abbrev pub after_end : Bool → PoolRun → PoolRun
  after_end drain_running_jobs r =
      let (deleted, pool) = end_workers p q drain_running_jobs r.pool in
      record r {
        pool = pool;
        gone = r.gone ++ deleted;
        thrown_away = if drain_running_jobs then r.thrown_away else true;
      }

  abbrev pub after_close : PoolRun → PoolRun
  after_close r = record r {
    pool = close_pool p q r.pool;
    gone = r.gone ++ pending_in r.pool.queue;
    thrown_away = true;
  }

  -- Callers submit, workers take, the pool is begun, ended and closed.
  pub data PoolStep (r : PoolRun) : PoolRun → Type 0 where
    submitted :
        (item_allocated : Bool) (invocation : JobInvocation)
        → PoolStep r (after_submit item_allocated invocation r)
    worked : PoolStep r (after_work r)
    begun :
        (support : TaskSupport) (context_allocated : ℕ → Bool) (queue_created : Bool)
        (runtime : Option (ExecutorRuntime q))
        → PoolStep r (record r {
          pool = (begin_pool p q support context_allocated queue_created runtime r.pool).1;
        })
    ended : (drain_running_jobs : Bool) → PoolStep r (after_end drain_running_jobs r)
    closed : PoolStep r (after_close r)

  pub data PoolReachable : PoolRun → Type 0 where
    made :
        (config : WorkerPoolConfig) (world : p.World)
        → PoolReachable (record {
          pool = new_pool p q config world;
          accepted = [];
          gone = [];
          ran = [];
          thrown_away = false;
        })
    moved : {r r' : PoolRun} → PoolReachable r → PoolStep r r' → PoolReachable r'

  pub record Accounted (r : PoolRun) : Type 0 where
    pub conserved : r.gone ++ pending_in r.pool.queue ≡ r.accepted
    pub all_ran : r.thrown_away ≡ false → r.ran ≡ r.gone
    pub idle : r.pool.started ≡ false → r.pool.queue ≡ none

  module _ (fifo : IsFifo q) where
    after_submit-Accounted :
        (item_allocated : Bool) (invocation : JobInvocation) (r : PoolRun)
        → Accounted r
        → Accounted (after_submit item_allocated invocation r)
    unfolding submit
    after_submit-Accounted item_allocated invocation r a = elim (Option-cases r.pool.queue) [
      | inl absent ↦ ground arith
      | inr (w, there) ↦
          let items = q.waiting (Option JobInvocation) w in
          ground (
            arith,
            fifo.sent (Option JobInvocation) (some invocation) w,
            fifo.refused (Option JobInvocation) (some invocation) w,
            somes-append items (some invocation ∷ []),
            append_assoc r.gone (somes items) (invocation ∷ []),
          )
    ]

    after_work-Accounted : (r : PoolRun) → Accounted r → Accounted (after_work r)
    unfolding worker_round
    after_work-Accounted r a = elim (Option-cases r.pool.queue) [
      | inl absent ↦ ground arith
      | inr (w, there) ↦ elim (List-cases (q.waiting (Option JobInvocation) w)) [
        | inl bare ↦ ground (arith, fifo.received_none (Option JobInvocation) w bare)
        | inr (none, rest, e) ↦
            ground (arith, fifo.received_first (Option JobInvocation) w none rest e)
        | inr (some invocation, rest, e) ↦ ground (
          arith,
          fifo.received_first (Option JobInvocation) w (some invocation) rest e,
          append_assoc r.gone (invocation ∷ []) (somes rest),
        )
      ]
    ]

    send_sentinels-pending :
        (n : ℕ) (w : q.Queue (Option JobInvocation))
        → pending_in (some (send_sentinels p q n w)) ≡ pending_in (some w)
    unfolding send_sentinels
    send_sentinels-pending zero w = refl
    send_sentinels-pending (suc n) w =
        let (sent, w') = q.send (Option JobInvocation) none w in
        let items = q.waiting (Option JobInvocation) w in
        ground (
          arith,
          send_sentinels-pending n w',
          fifo.sent (Option JobInvocation) none w,
          fifo.refused (Option JobInvocation) none w,
          somes-append items (none ∷ []),
          append-nil (somes items),
        )

    after_end-Accounted :
        (drain_running_jobs : Bool) (r : PoolRun)
        → Accounted r
        → Accounted (after_end drain_running_jobs r)
    unfolding end_workers
    after_end-Accounted drain_running_jobs r a = elim (Option-cases r.pool.queue) [
      | inl absent ↦ ground (arith, append-nil r.gone)
      | inr (w, there) ↦
          let items = q.waiting (Option JobInvocation) w in
          let n = length r.pool.workers.items in
          let (w', gone) = receive_all q (discard p q) (enough q w) w [] in
          ground (
            arith,
            receive_all-run_all q fifo (discard p q) w [],
            run_all-discard p q items [],
            send_sentinels-pending n w,
            send_sentinels-pending n w',
            append-nil r.gone,
            append-nil (r.gone ++ somes items),
          )
    ]

    after_close-Accounted : (r : PoolRun) → Accounted r → Accounted (after_close r)
    unfolding close_pool
    after_close-Accounted r a = elim (Option-cases r.pool.queue) [
      | inl absent ↦ ground (arith, append-nil r.gone, append-nil (r.gone ++ []))
      | inr (w, there) ↦
          ground (arith, append-nil (r.gone ++ somes (q.waiting (Option JobInvocation) w)))
    ]

    start_workers-queue :
        (support : TaskSupport) (context_allocated : ℕ → Bool) (left index : ℕ) (s : WorkerPool p q)
        → (start_workers p q support context_allocated left index s).1.queue ≡ s.queue
    unfolding start_workers
    start_workers-queue support context_allocated zero index s = refl
    start_workers-queue support context_allocated (suc left) index s =
        let with_caps =
          (create_task_pinned support s.config.stack_size s.config.use_psram_stack).1 in
        let pushed = push_back p p.size_of_pointer with_caps s.workers s.world in
        ground (
          arith,
          start_workers-queue support context_allocated left (index + 1) (record s {
            workers = pushed.array;
            world = pushed.world;
            workers_running = s.workers_running +ℤ pos 1;
          }),
        )

    close_pool-idle :
        (s : WorkerPool p q)
        → ((close_pool p q s).queue ≡ none) × ((close_pool p q s).started ≡ false)
    unfolding close_pool
    close_pool-idle s = elim (Option-cases s.queue) [
      | inl absent ↦ ground arith
      | inr (w, there) ↦ ground arith
    ]

    begin_pool-Accounted :
        (support : TaskSupport) (context_allocated : ℕ → Bool) (queue_created : Bool)
        (runtime : Option (ExecutorRuntime q)) (r : PoolRun)
        → Accounted r
        → Accounted (record r {
          pool = (begin_pool p q support context_allocated queue_created runtime r.pool).1;
        })
    unfolding begin_pool
    begin_pool-Accounted support context_allocated queue_created runtime r a =
        let w = q.create (Option JobInvocation) r.pool.config.queue_depth in
        let ready = record (r.pool) {
          runtime = runtime;
          queue = some w;
          workers = clear r.pool.workers;
          workers_running = pos 0;
        } in
        let filled =
          (start_workers p q support context_allocated r.pool.config.worker_count 0 ready).1 in
        ground (
          arith,
          start_workers-queue support context_allocated r.pool.config.worker_count 0 ready,
          fifo.created (Option JobInvocation) r.pool.config.queue_depth,
          close_pool-idle (end_workers p q false filled).1,
        )

    PoolStep-Accounted : {r r' : PoolRun} → PoolStep r r' → Accounted r → Accounted r'
    PoolStep-Accounted {r} (submitted item_allocated invocation) a =
        after_submit-Accounted item_allocated invocation r a
    PoolStep-Accounted {r} worked a = after_work-Accounted r a
    PoolStep-Accounted {r} (begun support context_allocated queue_created runtime) a =
        begin_pool-Accounted support context_allocated queue_created runtime r a
    PoolStep-Accounted {r} (ended drain_running_jobs) a = after_end-Accounted drain_running_jobs r a
    PoolStep-Accounted {r} closed a = after_close-Accounted r a

    -- However callers and workers interleave, over any number of starts and ends: the invocations that
    -- the pool has accepted are those that have left its queue, in the same order, followed by those
    -- that wait in it. Until some are thrown away, the ones that have left are those that the
    -- workers have run. A pool that is not started has no queue.
    pub PoolReachable-Accounted : (r : PoolRun) → PoolReachable r → Accounted r
    unfolding new_pool
    PoolReachable-Accounted _ (made config world) = ground arith
    PoolReachable-Accounted r' (moved {r} before step) =
        PoolStep-Accounted step (PoolReachable-Accounted r before)
