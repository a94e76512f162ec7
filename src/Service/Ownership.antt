-- ===== src/Service/Ownership.antt =====
-- Who frees a command: `executeBackgroundCommand` of scheduler.cpp, which makes it, against the loop of
-- `drainCommands` and of `stop` in service/scheduler_service.cpp, which serves it. Each atomic access of
-- either task to the command is a step.
use esp_scheduler.Prelude.{
  ◌+◌, ◌≡◌, ◌≤◌, ℕ, zero, suc, refl, Bool, true, false, not, ◌&&◌, if◌then◌else◌, arith,
}

-- The producer: about to send, about to wait or waiting, about to read `result` and delete, about to
-- abandon, about to delete what was not sent, back with its caller.
pub data Producer : Type 0 where
  sending waiting collecting abandoning discarding returned : Producer

-- The service: the command is not in the queue, is in it, has been taken out, has been executed, was
-- read as abandoned or not (`shouldDelete`), was signaled after that, is done with.
pub data Server : Type 0 where
  unsent queued taken executed : Server
  decided : Bool → Server
  signaled : Bool → Server
  finished : Bool → Server

-- `touched_late` counts the accesses after the command was freed.
pub record Handoff : Type 0 where
  pub producer : Producer
  pub server : Server
  pub completion : Bool
  pub abandoned : Bool
  pub freed : ℕ
  pub touched_late : ℕ

-- An access to the command.
unfoldable pub touch : Handoff → Handoff
touch h = record h { touched_late = h.touched_late + h.freed }

abbrev pub new_handoff : Handoff
new_handoff = record {
  producer = sending;
  server = unsent;
  completion = false;
  abandoned = false;
  freed = 0;
  touched_late = 0;
}

pub data HandoffStep (h h' : Handoff) : Type 0 where
  send_taken :
      h.producer ≡ sending
      → h' ≡ record (touch h) { producer = waiting; server = queued }
      → HandoffStep h h'
  send_refused :
      h.producer ≡ sending → h' ≡ record (touch h) { producer = discarding } → HandoffStep h h'
  delete_unsent :
      h.producer ≡ discarding
      → h' ≡ record (touch h) { producer = returned; freed = h.freed + 1 }
      → HandoffStep h h'
  -- `wait` answers true, and takes the semaphore.
  wait_ends :
      h.producer ≡ waiting
      → h.completion ≡ true
      → h' ≡ record (touch h) { producer = collecting; completion = false }
      → HandoffStep h h'
  -- `wait` answers false, at any time at which the semaphore is not given.
  wait_times_out :
      h.producer ≡ waiting
      → h.completion ≡ false
      → h' ≡ record (touch h) { producer = abandoning }
      → HandoffStep h h'
  abandon :
      h.producer ≡ abandoning
      → h' ≡ record (touch h) { producer = returned; abandoned = true }
      → HandoffStep h h'
  collect :
      h.producer ≡ collecting
      → h' ≡ record (touch h) { producer = returned; freed = h.freed + 1 }
      → HandoffStep h h'
  receive : h.server ≡ queued → h' ≡ record h { server = taken } → HandoffStep h h'
  execute : h.server ≡ taken → h' ≡ record (touch h) { server = executed } → HandoffStep h h'
  -- `stop` takes the commands that are left out of the queue and does not execute them.
  skip : h.server ≡ taken → h' ≡ record h { server = executed } → HandoffStep h h'
  decide :
      h.server ≡ executed
      → h' ≡ record (touch h) { server = decided h.abandoned }
      → HandoffStep h h'
  signal :
      (should_delete : Bool)
      → h.server ≡ decided should_delete
      → h' ≡ record (touch h) { server = signaled should_delete; completion = true }
      → HandoffStep h h'
  delete_abandoned :
      h.server ≡ signaled true
      → h' ≡ record (touch h) { server = finished true; freed = h.freed + 1 }
      → HandoffStep h h'
  keep : h.server ≡ signaled false → h' ≡ record h { server = finished false } → HandoffStep h h'

pub data HandoffReachable : Handoff → Type 0 where
  built : HandoffReachable new_handoff
  moved : {h h' : Handoff} → HandoffReachable h → HandoffStep h h' → HandoffReachable h'

-- The states that a command goes through.
abbrev allowed : Producer → Server → Bool → Bool → ℕ → Bool
allowed sending unsent false false zero = true
allowed discarding unsent false false zero = true
allowed returned unsent false false (suc zero) = true
allowed waiting queued false false zero = true
allowed waiting taken false false zero = true
allowed waiting executed false false zero = true
allowed waiting (decided false) false false zero = true
allowed waiting (signaled false) true false zero = true
allowed waiting (finished false) true false zero = true
allowed collecting (signaled false) false false zero = true
allowed collecting (finished false) false false zero = true
allowed abandoning queued false false zero = true
allowed abandoning taken false false zero = true
allowed abandoning executed false false zero = true
allowed abandoning (decided false) false false zero = true
allowed abandoning (signaled false) true false zero = true
allowed abandoning (finished false) true false zero = true
allowed returned queued false true zero = true
allowed returned taken false true zero = true
allowed returned executed false true zero = true
allowed returned (decided _) false true zero = true
allowed returned (signaled _) true true zero = true
allowed returned (finished false) true true zero = true
allowed returned (finished true) true true (suc zero) = true
allowed returned (signaled false) false false (suc zero) = true
allowed returned (finished false) false false (suc zero) = true
allowed _ _ _ _ _ = false

abbrev IsOwned : Handoff → Type 0
IsOwned h =
    (allowed h.producer h.server h.completion h.abandoned h.freed ≡ true) × (h.touched_late ≡ 0)

HandoffStep-IsOwned : {h h' : Handoff} → HandoffStep h h' → IsOwned h → IsOwned h'
unfolding touch
HandoffStep-IsOwned (send_taken at e) (v, w) = rw e (ground arith)
HandoffStep-IsOwned (send_refused at e) (v, w) = rw e (ground arith)
HandoffStep-IsOwned (delete_unsent at e) (v, w) = rw e (ground arith)
HandoffStep-IsOwned (wait_ends at given e) (v, w) = rw e (ground arith)
HandoffStep-IsOwned (wait_times_out at given e) (v, w) = rw e (ground arith)
HandoffStep-IsOwned (abandon at e) (v, w) = rw e (ground arith)
HandoffStep-IsOwned (collect at e) (v, w) = rw e (ground arith)
HandoffStep-IsOwned (receive at e) (v, w) = rw e (ground arith)
HandoffStep-IsOwned (execute at e) (v, w) = rw e (ground arith)
HandoffStep-IsOwned (skip at e) (v, w) = rw e (ground arith)
HandoffStep-IsOwned (decide at e) (v, w) = rw e (ground arith)
HandoffStep-IsOwned (signal should_delete at e) (v, w) = rw e (ground arith)
HandoffStep-IsOwned (delete_abandoned at e) (v, w) = rw e (ground arith)
HandoffStep-IsOwned (keep at e) (v, w) = rw e (ground arith)

HandoffReachable-IsOwned : (h : Handoff) → HandoffReachable h → IsOwned h
HandoffReachable-IsOwned _ built = (refl, refl)
HandoffReachable-IsOwned h' (moved {h} r step) =
    HandoffStep-IsOwned step (HandoffReachable-IsOwned h r)

-- Whatever the order of the steps of the two tasks, a command is never freed twice and never touched
-- after it was freed. Once both are done with it, it has been freed, with one exception: where the
-- producer marks it as abandoned after the service has read the mark, nobody frees it.
pub HandoffReachable-FreedOnce :
    (h : Handoff)
    → HandoffReachable h
    → (h.freed ≤ 1)
      × (h.touched_late ≡ 0)
      × (h.producer ≡ returned → h.server ≡ unsent → h.freed ≡ 1)
      × ((should_delete : Bool)
          → h.producer ≡ returned
          → h.server ≡ finished should_delete
          → h.freed ≡ (if h.abandoned && not should_delete then 0 else 1))
HandoffReachable-FreedOnce h r =
    let (v, w) = HandoffReachable-IsOwned h r in
    (ground arith, w, λ a b. ground arith, λ d a b. ground arith)
