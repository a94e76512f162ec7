-- ===== src/Lib.antt =====
-- The scheduler library ESPScheduler (src/esp_scheduler/): jobs with a schedule are kept in slots, found
-- by id through a hash table, ordered by due time in a binary heap, and dispatched to executors.
--
-- Parts and files
--   Prelude, Prelude/: shared names of the libraries, Boolean tests, lists and integers over the native
--     numbers, single bits of a mask.
--   Platform: what the program calls and does not implement, one record that everything takes as a
--     parameter: ESPDate's clock and astronomy, the C++ double, the allocator below scheduler_allocator.h
--     and the world behind the executors. No law is assumed of it.
--   Schedule/Field: ScheduleField (schedule/schedule_field.cpp, .h). Field/Laws: what matches answers.
--   Schedule/Spec: ScheduleSpec and its helpers (schedule/schedule_spec.cpp, .h). Spec/Laws: day fields.
--   Schedule/Calculator: validate and computeNext with its four searches (schedule/
--     schedule_calculator.cpp). Calculator/Angles: the helpers on angles. Calculator/Cron and
--     Calculator/Sun: the cron search and the sun search. Calculator/Valid: what validate accepts.
--   Core/Array: SchedulerArray (core/runtime_containers.h) and schedulerAllocate.
--   Core/IdIndex: SchedulerIdIndex (core/runtime_containers.h): set is set_id. Below it Probe has the
--     probe sequence and well-formed tables, Insert and Write one insertion, Assign insertion as a change of
--     the map, Rehash growth and compaction, Laws the index as a finite map.
--   Core/DueHeap: DueHeap (core/due_heap.h). Below it Swap and Order have the heap order, Up and Down the
--     two loops, Laws push and pop.
--   Core/Job: the records and results (core/job_record.h, scheduler_result.h, scheduler_config.h,
--     scheduler.h, executors/scheduler_executor.h, service/scheduler_events.h).
--   Core/Scheduler: SchedulerCore (core/scheduler_core.cpp, .h), its state and what its methods share;
--     Core/Calls: its calls; Core/AddJob: addJob; Core/Due: drainPendingSchedules,
--     pruneInvalidDueEntries and nextDueEpoch, below it Expected (what should become of a waiting job) and
--     Drain;
--     Core/Dispatch: dispatchDue, dispatchOne, handleEvent and handleCompletion, and below it Depth, with
--     Calls and Nested, how deep they call one another.
--   Core/Wakeup: the invariant of jobs and heap; Calls, Add, Dispatch and Rounds follow it through each
--     operation, Reach has the step relation and the reachable states, Next the next due time.
--   Core/Requests: canceling and pausing, and ById what a later lookup answers.
--   Core/Indexed: the index of ids through each operation: Add, Run, and Reach for the reachable states.
--   Core/Sound: the invariants of the core as one predicate, for the service and the facade.
--   Freertos: FreeRTOS's queues and their documented laws, as a record; Freertos/Drain: the loop that
--     empties a queue.
--   Executor/Task: executors/task_support.h. Executor/Completion: postCompletion, and the executor of
--     dedicated tasks (executors/dedicated_task_executor.cpp).
--   Executor/Pool: WorkerPoolExecutor (executors/worker_pool_executor.cpp, .h); Pool/Order: what becomes of
--     its invocations, with the step relation of callers and workers.
--   Service: SchedulerService (service/scheduler_service.cpp, .h), its task's loop by rounds; below it
--     Commands (service/scheduler_commands.cpp, .h), Wait (nextWakeTicks), Rounds (the order of service),
--     Reach (the step relation of a service), InTime (when a wait ends) and Ownership (who frees a
--     command, as a step relation of the caller and the service).
--   Facade: ESPScheduler::Impl (scheduler.cpp); below it Background (executeBackgroundCommand),
--     Lifecycle (begin and end), Requests (the public calls), Settings (bounds, executor ids), Tick,
--     Stopped (refusals, and manual mode as the core's own answers), Modes (what the two modes share,
--     executors by id), Sound, with Begin, Calls and Reach (the cores of a facade in every state it comes
--     to), and Ready (what begin and end leave), with Reach (what it holds in every state it comes to).
--   Compat: ESPSchedulerV1Compat (compat/v1_compat.cpp, .h); below it Queries (the tracked ids and
--     getJobInfo by index) and Deinit (a wrapper after deinit).
--   Tests: a small platform, list queues, runs on it, and the theorems applied to it.
--
-- How the code is read
--   A method is a function from the state to its answer and the new state; a C++ reference into jobs_ is
--   job_at before and set_job after. Names are the source's, in lower case with underscores. The state of
--   the allocator is passed on as world, so each request for memory may be refused, and the roll backs
--   run. uint32_t counters wrap at 2^32, runningCount at 2^16. An int, an int64_t and a DateTime's epoch
--   are unbounded integers; size_t is unbounded but in the size test of schedulerAllocate.
--   Submitting to an asynchronous executor is a parameter that answers yes or no. A callback that runs
--   inline is a parameter too: the list of calls that it makes on the scheduler.
--   The service and the facade see other tasks between two of their own calls. What the outside decides
--   within a call (an allocation, a queue, what the service does while a caller waits, the completions that
--   come in during the wait of end) is an argument. The two cores of a facade each have a world of their own.
--
-- Bounds and fuel
--   The loops of a field take 64 rounds: values are at most 63 and a step is at least 1. The searches of
--   computeNext take as many rounds as the source's own bounds. A probe loop takes one round for each
--   entry, as in the source. The sifting loops take one round for each entry of the heap, which is more
--   than its levels. Draining takes one round for each entry of the list, pruning one for each entry of the
--   heap; both shorten it. dispatchOne and handleCompletion take a unit for each nested call, and depth is 3.
--   A loop over a queue takes a round for each item that waits and one more.
--   The loop of dispatchDue takes the number of rounds as an argument, and what is said of it is said for
--   every number.
--
-- Not modelled
--   The adapter of ESPWorker (executors/esp_worker_executor.cpp): spawn is not in the repository. The core
--   and the facade see every asynchronous executor as the answers that submit and begin give. The wait of
--   the pool's end for its workers, and the deletion of tasks. Of the wrapper for version 1, the calls
--   that it only passes on (tick, cleanup, the bounds on valid time, computeNextOccurrence). What another
--   task sees between the parts of a begin, and of an end after it has begun to drain: each of the two is
--   one step. The time that passes while a function runs: a dispatch and the wait computed after it have
--   the same now. The mark abandon of a call that times out, outside Service/Ownership. The flag that asks
--   for a refresh is one variable of the facade that the service shares; here each has a copy, and a
--   request sets both. A callback that calls tick or end or sets the bound on valid time, and the
--   completions that a callback's own refreshAllSchedules handles. Commands and completions that arrive
--   while a queue is drained count as sent before. The task's priority and core, and that it ends within
--   the time that stop waits. Where a block lies (internal memory or PSRAM), and the return of a job
--   name's memory. swapRemove and erase, which the core does not call.
pub mod Prelude
pub mod Platform
pub mod Freertos
pub mod Schedule
pub mod Core
pub mod Executor
pub mod Service
pub mod Facade
pub mod Compat
pub mod Tests
