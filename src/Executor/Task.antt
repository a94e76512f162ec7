-- ===== src/Executor/Task.antt =====
-- The tasks of executors/task_support.h. What ESP-IDF offers and answers is a record of this model.
use native.Mathlib.Nat.{mod-eq_of_lt}
use esp_scheduler.Prelude.{
  ◌%◌, ◌^◌, ◌&&◌, ◌==◌, ◌≡◌, ◌≤◌, ◌<◌, if◌then◌else◌, ℕ, Bool, true, false, not, arith, ltb, leb,
}

-- Whether external stacks are compiled in, the size of the external memory, `sizeof(StackType_t)`, the
-- bits of `configSTACK_DEPTH_TYPE`, and whether a task with a stack of so many bytes is created, in external memory and in internal
-- memory, with a handle.
pub record TaskSupport : Type 0 where
  pub can_use_external_stacks : Bool
  pub external_size : ℕ
  pub size_of_stack_type : ℕ
  pub stack_depth_bits : ℕ
  pub create_with_caps : ℕ → Bool
  pub create_pinned : ℕ → Bool

abbrev pub min_stack_size_bytes : ℕ
min_stack_size_bytes = 1024

module _ (support : TaskSupport) where
  open support use {size_of_stack_type, create_with_caps, create_pinned}

  unfoldable pub has_external_stack_support : Bool
  has_external_stack_support =
      if support.can_use_external_stacks then ltb 0 support.external_size else false

  unfoldable pub is_valid_stack_size : ℕ → Bool
  is_valid_stack_size stack_bytes =
      leb min_stack_size_bytes stack_bytes && stack_bytes % size_of_stack_type == 0

  -- The size that FreeRTOS gets: the one asked for, cast to `configSTACK_DEPTH_TYPE` or to `uint32_t`.
  abbrev pub stack_passed : ℕ → Bool → ℕ
  stack_passed stack_bytes use_psram_stack =
      if use_psram_stack then stack_bytes % 2 ^ support.stack_depth_bits else stack_bytes % 2 ^ 32

  -- Whether the task is created, and `createdWithCaps`.
  unfoldable pub create_task_pinned : ℕ → Bool → Bool × Bool
  unfolding has_external_stack_support is_valid_stack_size
  create_task_pinned stack_bytes use_psram_stack =
      let created = create_with_caps (stack_passed stack_bytes true) in
      if not (is_valid_stack_size stack_bytes)
      then (false, false)
      else if use_psram_stack
      then (if support.can_use_external_stacks
          then (if not has_external_stack_support then (false, false) else (created, created))
          else (false, false))
      else (create_pinned (stack_passed stack_bytes false), false)

  -- A task that is created, for a size that fits the type that it is cast to, has a stack of the size
  -- asked for, of at least 1024 bytes and of a whole number of stack words, and is marked as one with
  -- capabilities exactly if its stack was asked for in external memory, which is then there.
  pub create_task_pinned-Valid :
      (stack_bytes : ℕ) (use_psram_stack : Bool)
      → stack_bytes < (if use_psram_stack then 2 ^ support.stack_depth_bits else 2 ^ 32)
      → (create_task_pinned stack_bytes use_psram_stack).0 ≡ true
      → let stack = stack_passed stack_bytes use_psram_stack in
        (stack ≡ stack_bytes)
        × (1024 ≤ stack)
        × (stack % size_of_stack_type ≡ 0)
        × ((if use_psram_stack then create_with_caps stack else create_pinned stack) ≡ true)
        × ((create_task_pinned stack_bytes use_psram_stack).1 ≡ use_psram_stack)
        × (use_psram_stack ≡ true → has_external_stack_support ≡ true)
  unfolding create_task_pinned has_external_stack_support is_valid_stack_size
  create_task_pinned-Valid stack_bytes use_psram_stack fits h = ground (
    arith,
    mod-eq_of_lt {n = stack_bytes} {m = 2 ^ support.stack_depth_bits},
    mod-eq_of_lt {n = stack_bytes} {m = 2 ^ 32},
  )
