-- ===== src/Facade/Background.antt =====
-- `executeBackgroundCommand` of scheduler.cpp: a call in background mode goes through the service.
use esp_scheduler.Prelude.{
  ◌≡◌, ◌++◌, ◌∷◌, [], Bool, true, not, Option, none, some, List, if◌then◌else◌, refl, ap, ◌∙◌,
}
use esp_scheduler.Platform.{Platform}
use esp_scheduler.Freertos.{Queues, IsFifo}
use esp_scheduler.Core.Job.{no_memory, queue_full, timeout}
use esp_scheduler.Core.Scheduler.{Core}
use esp_scheduler.Service.Commands.{ServiceCommand, Reply, execute, failed_with}
use esp_scheduler.Service.{SchedulerService, send, drain_commands}
use esp_scheduler.Service.Rounds.{execute_in_order, drain_commands-execute_in_order}

-- What the outside decides of a call: whether the command is allocated, and what the service does
-- while the caller waits, with the reply that it gives in time, if any.
pub record Exchange (p : Platform) (q : Queues) : Type 0 where
  pub command_allocated : Bool
  pub while_waiting : SchedulerService p q → Option (Reply p) × SchedulerService p q

module _ (p : Platform) (q : Queues) where
  -- The mark `abandon` that a caller leaves on a command that has timed out is in Service/Ownership.
  unfoldable pub execute_background :
      Exchange p q → ServiceCommand p → SchedulerService p q → Reply p × SchedulerService p q
  unfolding failed_with send
  execute_background exchange command s =
      let (sent, s') = send p q (some command) s in
      let (reply, s'') = exchange.while_waiting s' in
      if not exchange.command_allocated
      then (failed_with p no_memory command, s)
      else if not sent
      then (failed_with p queue_full command, s')
      else elim reply [ none ↦ (failed_with p timeout command, s'') | some answer ↦ (answer, s'') ]

  -- The last of the replies.
  abbrev pub last_reply : List (Reply p) → Option (Reply p)
  last_reply [] = none
  last_reply (r ∷ []) = some r
  last_reply (_ ∷ r ∷ rs) = last_reply (r ∷ rs)

  module _ (date_now : p.World → p.DateTime × p.World) where
    -- The commands that wait, as the service would execute them now.
    abbrev pub after_queued :
        SchedulerService p q → q.Queue (Option (ServiceCommand p)) → List (Reply p) × Core p
    after_queued s w =
        execute_in_order p q date_now (q.waiting (Option (ServiceCommand p)) w) s.core

    -- `execute` at the service's time.
    abbrev pub execute_now : ServiceCommand p → Core p → Reply p × Core p
    execute_now command c =
        let (now, world) = date_now c.world in execute p command now (record c { world = world })

    -- The service drains its queue while the caller waits, and the caller gets the last reply.
    abbrev pub served_at_once : Exchange p q
    served_at_once = record {
      command_allocated = true;
      while_waiting =
          λ s. let (replies, s') = drain_commands p q date_now s in (last_reply replies, s');
    }

    execute_in_order-last :
        (commands : List (Option (ServiceCommand p))) (command : ServiceCommand p) (c : Core p)
        → let (replies, c') = execute_in_order p q date_now commands c in
          let (reply, c'') = execute_now command c' in
          execute_in_order p q date_now (commands ++ (some command ∷ [])) c
          ≡ (replies ++ (reply ∷ []), c'')
    unfolding execute_in_order
    execute_in_order-last [] command c = refl
    execute_in_order-last (none ∷ rest) command c = execute_in_order-last rest command c
    execute_in_order-last (some first ∷ rest) command c =
        let (reply, c') = execute_now first c in
        ap (λ (r : List (Reply p) × Core p). (reply ∷ r.0, r.1))
          (execute_in_order-last rest command c')

    last_reply-append : (rs : List (Reply p)) (r : Reply p) → last_reply (rs ++ (r ∷ [])) ≡ some r
    last_reply-append [] r = refl
    last_reply-append (x ∷ []) r = refl
    last_reply-append (x ∷ y ∷ rs) r = last_reply-append (y ∷ rs) r

    -- What a drain gives after one more command was sent.
    sent_drain :
        (fifo : IsFifo q) (command : ServiceCommand p) (s : SchedulerService p q)
        (w : q.Queue (Option (ServiceCommand p)))
        → s.command_queue ≡ some w
        → (q.send (Option (ServiceCommand p)) (some command) w).0 ≡ true
        → ((send p q (some command) s).0 ≡ true)
          × ((drain_commands p q date_now (send p q (some command) s).1).0
              ≡ (after_queued s w).0 ++ ((execute_now command (after_queued s w).1).0 ∷ []))
          × ((drain_commands p q date_now (send p q (some command) s).1).1.core
              ≡ (execute_now command (after_queued s w).1).1)
    unfolding send
    sent_drain fifo command s w e taken =
        let (sent, w') = q.send (Option (ServiceCommand p)) (some command) w in
        let s' = record s { command_queue = some w' } in
        let same : send p q (some command) s ≡ (sent, s') = rw (e, send) refl in
        let queued = fifo.sent (Option (ServiceCommand p)) (some command) w taken in
        let (replies, core, rest) = drain_commands-execute_in_order p q date_now fifo s' w' refl in
        let last = execute_in_order-last (q.waiting (Option (ServiceCommand p)) w) command s.core in
        rw same (
          taken,
          replies
              ∙ ap (λ l. (execute_in_order p q date_now l s.core).0) queued
              ∙ ap (λ r. r.0) last,
          core ∙ ap (λ l. (execute_in_order p q date_now l s.core).1) queued ∙ ap (λ r. r.1) last,
        )

    -- A call that the service answers has the reply that the core gives after all the commands that
    -- were sent before it, and leaves the core as that execution does.
    pub execute_background-execute :
        (fifo : IsFifo q) (command : ServiceCommand p) (s : SchedulerService p q)
        (w : q.Queue (Option (ServiceCommand p)))
        → s.command_queue ≡ some w
        → (q.send (Option (ServiceCommand p)) (some command) w).0 ≡ true
        → ((execute_background served_at_once command s).0
            ≡ (execute_now command (after_queued s w).1).0)
          × ((execute_background served_at_once command s).1.core
              ≡ (execute_now command (after_queued s w).1).1)
    unfolding execute_background
    execute_background-execute fifo command s w e taken =
        let (sent, replies, core) = sent_drain fifo command s w e taken in
        let answer = execute_now command (after_queued s w).1 in
        let replied : last_reply (drain_commands p q date_now (send p q (some command) s).1).0
            ≡ some (answer.0) =
          ap last_reply replies ∙ last_reply-append (after_queued s w).0 answer.0 in
        rw (sent, execute_background) (rw (replied, execute_background) (refl, core))
