-- ===== src/Freertos/Drain.antt =====
-- The loop `while (xQueueReceive(queue, &item, 0) == pdTRUE)` of scheduler.cpp, of service/ and of
-- executors/, with its body as an argument. What other tasks send while it runs counts as sent before.
use esp_scheduler.Prelude.{
  ◌<◌, ◌≡◌, ◌∷◌, [], ℕ, zero, suc, refl, none, some, List, arith, length, inl, inr, Option-cases,
}
use esp_scheduler.Freertos.{Queues, IsFifo}

module _ {A S : Type 0} where
  -- The body on a list of items, one after the other.
  unfoldable pub run_all : (A → S → S) → List A → S → S
  run_all body [] s = s
  run_all body (a ∷ rest) s = run_all body rest (body a s)

  pub run_all_invariant :
      (Good : S → Type 0) (body : A → S → S)
      → ((a : A) (s : S) → Good s → Good (body a s))
      → (items : List A) (s : S) → Good s
      → Good (run_all body items s)
  unfolding run_all
  run_all_invariant Good body keeps [] s g = g
  run_all_invariant Good body keeps (a ∷ rest) s g =
      run_all_invariant Good body keeps rest (body a s) (keeps a s g)

module _ (q : Queues) {A : Type 0} where
  -- One round for each item that waits, and one to see that there is none.
  abbrev pub enough : q.Queue A → ℕ
  enough w = suc (length (q.waiting A w))

module _ (q : Queues) {A S : Type 0} where
  unfoldable pub receive_all : (A → S → S) → ℕ → q.Queue A → S → q.Queue A × S
  receive_all body zero w s = (w, s)
  receive_all body (suc left) w s = elim (q.receive A w).0 [
    | none ↦ ((q.receive A w).1, s)
    | some a ↦ receive_all body left (q.receive A w).1 (body a s)
  ]

  receive_all-run_all_of :
      (fifo : IsFifo q) (body : A → S → S) (items : List A) (n : ℕ) (w : q.Queue A) (s : S)
      → q.waiting A w ≡ items
      → length items < n
      → (q.waiting A (receive_all body n w s).0 ≡ [])
        × ((receive_all body n w s).1 ≡ run_all body items s)
  unfolding receive_all run_all
  receive_all-run_all_of fifo body items zero w s e h = absurd (omega arith)
  receive_all-run_all_of fifo body [] (suc n) w s e h =
      let (none_left, still) = fifo.received_none A w e in rw (none_left, receive_all) (still, refl)
  receive_all-run_all_of fifo body (a ∷ rest) (suc n) w s e h =
      let (got, left) = fifo.received_first A w a rest e in
      rw (got, receive_all)
        (receive_all-run_all_of fifo body rest n (q.receive A w).1 (body a s) left (omega arith))

  -- With a round to spare, the loop ends on an empty queue and has run its body on each item that
  -- waited, in the order of the queue.
  pub receive_all-run_all :
      (fifo : IsFifo q) (body : A → S → S) (w : q.Queue A) (s : S)
      → (q.waiting A (receive_all body (enough q w) w s).0 ≡ [])
        × ((receive_all body (enough q w) w s).1 ≡ run_all body (q.waiting A w) s)
  receive_all-run_all fifo body w s =
      receive_all-run_all_of fifo body (q.waiting A w) (enough q w) w s refl (omega arith)

  pub receive_all_invariant :
      (Good : S → Type 0) (body : A → S → S)
      → ((a : A) (s : S) → Good s → Good (body a s))
      → (n : ℕ) (w : q.Queue A) (s : S) → Good s
      → Good (receive_all body n w s).1
  unfolding receive_all
  receive_all_invariant Good body keeps zero w s g = g
  receive_all_invariant Good body keeps (suc n) w s g = elim (Option-cases (q.receive A w).0) [
    | inl empty ↦ rw (empty, receive_all) g
    | inr (a, got) ↦
        rw (got, receive_all)
          (receive_all_invariant Good body keeps n (q.receive A w).1 (body a s) (keeps a s g))
  ]
