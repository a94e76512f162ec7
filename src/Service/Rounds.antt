-- ===== src/Service/Rounds.antt =====
-- What the rounds of service/scheduler_service.cpp do to the core: commands are served in the order of
-- the queue, and the core stays sound.
use esp_scheduler.Prelude.{◌≡◌, ◌++◌, ◌∷◌, [], refl, ap, sym, ◌∙◌, Option, none, some, List}
use mathlib.Core.List.{append_assoc, append-nil}
use esp_scheduler.Platform.{Platform}
use esp_scheduler.Freertos.{Queues, IsFifo}
use esp_scheduler.Freertos.Drain.{run_all, receive_all, enough, receive_all-run_all}
use esp_scheduler.Core.Scheduler.{Core}
use esp_scheduler.Service.Commands.{ServiceCommand, Reply, execute}
use esp_scheduler.Service.{SchedulerService, serve_command, drain_commands}

module _ (p : Platform) (q : Queues) (date_now : p.World → p.DateTime × p.World) where
  open p use {DateTime}

  -- The commands one after the other, each at its own time, with its reply. A null pointer is none.
  unfoldable pub execute_in_order :
      List (Option (ServiceCommand p)) → Core p → List (Reply p) × Core p
  execute_in_order [] c = ([], c)
  execute_in_order (none ∷ rest) c = execute_in_order rest c
  execute_in_order (some command ∷ rest) c =
      let (now, world) = date_now c.world in
      let (reply, c') = execute p command now (record c { world = world }) in
      let (replies, c'') = execute_in_order rest c' in (reply ∷ replies, c'')

  run_all-execute_in_order :
      (commands : List (Option (ServiceCommand p))) (before : List (Reply p)) (c : Core p)
      → run_all (serve_command p q date_now) commands (before, c)
        ≡ (before ++ (execute_in_order commands c).0, (execute_in_order commands c).1)
  unfolding execute_in_order run_all serve_command
  run_all-execute_in_order [] before c =
      ap (λ (r : List (Reply p)). (r, c)) (sym (append-nil before))
  run_all-execute_in_order (none ∷ rest) before c = run_all-execute_in_order rest before c
  run_all-execute_in_order (some command ∷ rest) before c =
      let (now, world) = date_now c.world in
      let (reply, c') = execute p command now (record c { world = world }) in
      let (replies, c'') = execute_in_order rest c' in
      run_all-execute_in_order rest (before ++ (reply ∷ [])) c'
      ∙ ap (λ (r : List (Reply p)). (r, c'')) (append_assoc before (reply ∷ []) replies)

  -- A drain of the command queue executes all commands that wait, in the order in which they were
  -- sent, and gives to each its reply; it leaves the queue empty.
  pub drain_commands-execute_in_order :
      (fifo : IsFifo q) (s : SchedulerService p q) (w : q.Queue (Option (ServiceCommand p)))
      → s.command_queue ≡ some w
      → ((drain_commands p q date_now s).0 ≡ (execute_in_order (q.waiting _ w) s.core).0)
        × ((drain_commands p q date_now s).1.core ≡ (execute_in_order (q.waiting _ w) s.core).1)
        × ((w' : q.Queue (Option (ServiceCommand p))) × ((drain_commands p q date_now
                s).1.command_queue
              ≡ some w')
            × (q.waiting _ w' ≡ []))
  unfolding drain_commands
  drain_commands-execute_in_order fifo s w e =
      let commands = Option (ServiceCommand p) in
      let drained = receive_all q (serve_command p q date_now) (enough q w) w ([], s.core) in
      let (over, same) = receive_all-run_all q fifo (serve_command p q date_now) w ([], s.core) in
      let ordered = same ∙ run_all-execute_in_order (q.waiting commands w) [] s.core in
      rw (e, drain_commands) (ap (λ r. r.0) ordered, ap (λ r. r.1) ordered, (drained.0, refl, over))
