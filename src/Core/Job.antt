-- ===== src/Core/Job.antt =====
-- The records that the scheduler core works on: scheduler_result.h, the policies and task options of
-- scheduler_config.h, `JobOptions` and `JobInfo` of scheduler.h, `CallbackRef` and `JobInvocation` of
-- executors/scheduler_executor.h, core/job_record.h and service/scheduler_events.h. A C string is its
-- bytes without the final zero; `none` is a null pointer. A function object is a number.
use esp_scheduler.Prelude.{
  ◌+◌, ◌≡◌, ◌⊎◌, ◌||◌, ◌∷◌, if◌then◌else◌, [], ℕ, refl, inl, inr, Bool, true, false, Option, none,
  some, List, length, ℤ,
}
use esp_scheduler.Platform.{Platform}
use esp_scheduler.Core.Array.{scheduler_allocate}
use esp_scheduler.Schedule.Spec.{ScheduleSpec, one_shot_utc, default_spec}

pub data SchedulerError : Type 0 where
  not_initialized already_initialized invalid_schedule no_memory queue_full not_found busy
        executor_unavailable timeout :
      SchedulerError

-- `SchedulerResult<T>`: the value where `ok()` holds, or the error.
pub data SchedulerResult (A : Type 0) : Type 0 where
  success : A → SchedulerResult A
  failure : SchedulerError → SchedulerResult A

pub data DispatchPolicy : Type 0 where
  inline async : DispatchPolicy

pub data OverlapPolicy : Type 0 where
  skip_if_running queue_one allow_parallel : OverlapPolicy

abbrev pub CString : Type 0
CString = List ℕ

pub record DedicatedTaskOptions : Type 0 where
  pub name : Option CString
  pub stack_size : ℕ
  pub priority : ℕ
  pub core_id : ℤ
  pub use_psram_stack : Bool

pub data CallbackKind : Type 0 where
  raw_function owning_function : CallbackKind

pub record CallbackRef : Type 0 where
  pub kind : CallbackKind
  pub raw_fn : Option ℕ
  pub user_data : ℕ
  pub owning_fn : Option ℕ

abbrev pub present : {A : Type 0} → Option A → Bool
present none = false
present (some a) = true

unfoldable pub callback_valid : CallbackRef → Bool
callback_valid callback = present callback.raw_fn || present callback.owning_fn

-- `CallbackRef{}`
abbrev pub empty_callback : CallbackRef
empty_callback = record { kind = raw_function; raw_fn = none; user_data = 0; owning_fn = none }

pub record JobOptions : Type 0 where
  pub dispatch : DispatchPolicy
  pub overlap : OverlapPolicy
  pub executor_id : ℕ
  pub start_paused : Bool
  pub name : Option CString
  pub dedicated_task : Option DedicatedTaskOptions

pub record JobInvocation : Type 0 where
  pub job_id : ℕ
  pub generation : ℕ
  pub slot_index : ℕ
  pub name : Option CString
  pub callback : CallbackRef
  pub dedicated_task : DedicatedTaskOptions

-- Its only kind is `JobFinished`.
pub record SchedulerEvent : Type 0 where
  pub job_id : ℕ
  pub generation : ℕ
  pub slot_index : ℕ

pub record JobRecord (p : Platform) : Type 0 where
  pub id : ℕ
  pub generation : ℕ
  pub occupied : Bool
  pub schedule : ScheduleSpec p
  pub dispatch : DispatchPolicy
  pub overlap : OverlapPolicy
  pub executor_id : ℕ
  pub paused : Bool
  pub canceled : Bool
  pub queued_while_running : Bool
  pub has_next : Bool
  pub pending_schedule : Bool
  pub refresh_pending : Bool
  pub running_count : ℕ
  pub next_run_utc : p.DateTime
  pub schedule_from_utc : p.DateTime
  pub callback : CallbackRef
  pub name : Option CString
  pub dedicated_task : DedicatedTaskOptions
  pub has_dedicated_task_options : Bool

pub record JobInfo (p : Platform) : Type 0 where
  pub id : ℕ
  pub name : Option CString
  pub paused : Bool
  pub running : Bool
  pub queued_while_running : Bool
  pub dispatch : DispatchPolicy
  pub overlap : OverlapPolicy
  pub executor_id : ℕ
  pub has_next : Bool
  pub next_run_utc : p.DateTime
  pub schedule : ScheduleSpec p

module _ (p : Platform) where
  -- `DedicatedTaskOptions{}`, with the name "sched-job".
  abbrev pub default_task_options : DedicatedTaskOptions
  default_task_options = record {
    name = some (b's' ∷ b'c' ∷ b'h' ∷ b'e' ∷ b'd' ∷ b'-' ∷ b'j' ∷ b'o' ∷ b'b' ∷ []);
    stack_size = 4096;
    priority = 1;
    core_id = p.no_affinity;
    use_psram_stack = false;
  }

  -- `JobRecord record(usePSRAMMetadata_);`
  unfoldable pub new_job : JobRecord p
  unfolding default_spec
  new_job = record {
    id = 0;
    generation = 1;
    occupied = false;
    schedule = default_spec p;
    dispatch = inline;
    overlap = skip_if_running;
    executor_id = 0;
    paused = false;
    canceled = false;
    queued_while_running = false;
    has_next = false;
    pending_schedule = false;
    refresh_pending = false;
    running_count = 0;
    next_run_utc = p.zero_time;
    schedule_from_utc = p.zero_time;
    callback = empty_callback;
    name = none;
    dedicated_task = default_task_options;
    has_dedicated_task_options = false;
  }

  -- `JobInfo{}`
  unfoldable pub new_info : JobInfo p
  unfolding default_spec
  new_info = record {
    id = 0;
    name = none;
    paused = false;
    running = false;
    queued_while_running = false;
    dispatch = inline;
    overlap = skip_if_running;
    executor_id = 0;
    has_next = false;
    next_run_utc = p.zero_time;
    schedule = default_spec p;
  }

  -- `SchedulerOwnedString::assign` on an empty string: whether it succeeds, the text kept, and the
  -- allocator.
  unfoldable pub assign_name : Option CString → p.World → Bool × Option CString × p.World
  assign_name none m = (true, none, m)
  assign_name (some []) m = (true, none, m)
  assign_name (some (c ∷ cs)) m =
      let (granted, m') = scheduler_allocate p 1 (length (c ∷ cs) + 1) m in
      if granted then (true, some (c ∷ cs), m') else (false, none, m')

-- `schedule.isOneShot || schedule.kind == ScheduleKind::OneShotUtc`
unfoldable pub runs_once : {p : Platform} → JobRecord p → Bool
runs_once r = r.schedule.is_one_shot || elim r.schedule.kind [ one_shot_utc ↦ true | _ ↦ false ]

pub Result-cases :
    {A : Type 0} (x : SchedulerResult A)
    → ((e : SchedulerError) × (x ≡ failure e)) ⊎ ((a : A) × (x ≡ success a))
Result-cases (failure e) = inl (e, refl)
Result-cases (success a) = inr (a, refl)
