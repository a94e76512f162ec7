-- ===== src/Tests/Queues.antt =====
-- A queue as a list with a depth.
use esp_scheduler.Prelude.{
  ◌≡◌, ◌++◌, ◌∷◌, ◌/◌, [], ℕ, Bool, true, false, Option, none, some, List, refl, arith, ltb, length,
  if◌then◌else◌,
}
use esp_scheduler.Freertos.{Queues, IsFifo}

abbrev pub ListQueue : Type 0 → Type 0
ListQueue A = ℕ × List A

abbrev pub send_list : (A : Type 0) → A → ListQueue A → Bool × ListQueue A
send_list A a (depth, items) =
    if ltb (length items) depth then (true, (depth, items ++ (a ∷ []))) else (false, (depth, items))

abbrev pub receive_list : (A : Type 0) → ListQueue A → Option A × ListQueue A
receive_list A (depth, []) = (none, (depth, []))
receive_list A (depth, a ∷ rest) = (some a, (depth, rest))

abbrev pub list_queues : Queues
list_queues = record {
  Queue = ListQueue;
  create = λ A depth. (depth, []);
  send = send_list;
  receive = receive_list;
  waiting = λ A w. w.1;
  pd_ms_to_ticks = λ ms. ms / 10;
}

received_none :
    (A : Type 0) (w : ListQueue A)
    → w.1 ≡ []
    → ((receive_list A w).0 ≡ none) × ((receive_list A w).1.1 ≡ [])
received_none A (depth, []) e = (refl, refl)
received_none A (depth, a ∷ rest) e = cc

received_first :
    (A : Type 0) (w : ListQueue A) (a : A) (rest : List A)
    → w.1 ≡ a ∷ rest
    → ((receive_list A w).0 ≡ some a) × ((receive_list A w).1.1 ≡ rest)
received_first A (depth, []) a rest e = cc
received_first A (depth, b ∷ others) a rest e = ground arith

pub list_queues-IsFifo : IsFifo list_queues
list_queues-IsFifo = record {
  created = λ A depth. refl;
  sent = λ A a w h. ground arith;
  refused = λ A a w h. ground arith;
  received_none = received_none;
  received_first = received_first;
}
