-- ===== src/Freertos.antt =====
-- What the scheduler uses of FreeRTOS: its queues, which the service and the executors share, and the
-- conversion of a time to ticks.
pub mod Drain
use esp_scheduler.Prelude.{◌≡◌, ◌++◌, ◌∷◌, [], ℕ, Bool, true, false, Option, none, some, List}

pub record Queues : Type 1 where
  pub Queue : Type 0 → Type 0
  -- `xQueueCreate`, where there is memory.
  pub create : (A : Type 0) → ℕ → Queue A
  -- `xQueueSend(queue, &item, 0) == pdTRUE`
  pub send : (A : Type 0) → A → Queue A → Bool × Queue A
  -- `xQueueReceive(queue, &item, 0)`: the item where it answers `pdTRUE`.
  pub receive : (A : Type 0) → Queue A → Option A × Queue A
  -- The items that wait, the oldest first.
  pub waiting : (A : Type 0) → Queue A → List A
  -- `pdMS_TO_TICKS`
  pub pd_ms_to_ticks : ℕ → ℕ

-- What FreeRTOS documents of a queue: it starts empty, and items leave it in the order in which
-- they came. A send that fails leaves it as it was.
pub record IsFifo (q : Queues) : Type 1 where
  pub created : (A : Type 0) (depth : ℕ) → q.waiting A (q.create A depth) ≡ []
  pub sent :
      (A : Type 0) (a : A) (w : q.Queue A)
      → (q.send A a w).0 ≡ true
      → q.waiting A (q.send A a w).1 ≡ q.waiting A w ++ (a ∷ [])
  pub refused :
      (A : Type 0) (a : A) (w : q.Queue A) → (q.send A a w).0 ≡ false → (q.send A a w).1 ≡ w
  pub received_none :
      (A : Type 0) (w : q.Queue A)
      → q.waiting A w ≡ []
      → ((q.receive A w).0 ≡ none) × (q.waiting A (q.receive A w).1 ≡ [])
  pub received_first :
      (A : Type 0) (w : q.Queue A) (a : A) (rest : List A)
      → q.waiting A w ≡ a ∷ rest
      → ((q.receive A w).0 ≡ some a) × (q.waiting A (q.receive A w).1 ≡ rest)
