-- ===== src/Core/Wakeup.antt =====
-- What wakes a job: the invariant that ties `jobs_` to `dueHeap_` in core/scheduler_core.cpp. Every
-- job that says it has a next run stands in the heap of due times under that very time.
pub mod Calls
pub mod Add
pub mod Dispatch
pub mod Rounds
pub mod Reach
pub mod Next
use mathlib.Core.List.{Mem, mem-cons_self, mem-cons_of_mem}
use mathlib.Core.List.Perm
use esp_scheduler.Prelude.{
  ◌≤◌, ◌≡◌, ◌≢◌, ◌⊎◌, ◌&&◌, ◌∷◌, ◌==◌, if◌then◌else◌, ℕ, refl, inl, inr, Bool, true, false, not,
  List, Perm, arith, ltb, Bool-cases, get_or, get_or-set, get_or-out,
}
use esp_scheduler.Platform.{Platform}
use esp_scheduler.Core.Job.{JobRecord, new_job}
use esp_scheduler.Core.DueHeap.{DueHeapEntry, DueHeap}
use esp_scheduler.Core.DueHeap
use esp_scheduler.Core.DueHeap.Order.{IsHeap}
use esp_scheduler.Core.DueHeap.Laws.{push-IsHeap, pop-IsHeap}
use esp_scheduler.Core.Scheduler.{
  SchedulerCore, Core, slots, job_at, set_job, due_entry, push_due, push_due_or_clear,
}

module _ (p : Platform) where
  -- The job takes part, and has a next run.
  abbrev pub live : JobRecord p → Bool
  live r = r.occupied && (not r.canceled && r.has_next)

  -- What the invariant says of one slot.
  abbrev pub DueIn : List (JobRecord p) → List DueHeapEntry → ℕ → Type 0
  DueIn jobs heap i =
      live (get_or jobs i (new_job p)) ≡ true → Mem (due_entry p i (get_or jobs i (new_job p))) heap

  pub record WakesIn (jobs : List (JobRecord p)) (heap : List DueHeapEntry) : Type 0 where
    pub ordered : IsHeap heap
    pub due : (i : ℕ) → DueIn jobs heap i

  -- The same, with nothing said of slot `s`.
  pub record WakesInBut (s : ℕ) (jobs : List (JobRecord p)) (heap : List DueHeapEntry)
      : Type 0 where
    pub ordered : IsHeap heap
    pub due : (i : ℕ) → i ≢ s → DueIn jobs heap i

  abbrev pub Wakes : Core p → Type 0
  Wakes c = WakesIn c.jobs.items c.due_heap.entries.items

  abbrev pub WakesBut : ℕ → Core p → Type 0
  WakesBut s c = WakesInBut s c.jobs.items c.due_heap.entries.items

  -- A test, by its two branches.
  pub if-Wakes :
      (b : Bool) (x y : Core p)
      → (b ≡ true → Wakes x)
      → (b ≡ false → Wakes y)
      → Wakes (if b then x else y)
  if-Wakes true x y w v = w refl
  if-Wakes false x y w v = v refl

  pub forget : (c : Core p) (s : ℕ) → Wakes c → WakesBut s c
  forget c s w = record { ordered = w.ordered; due = λ i ne. w.due i }

  pub close :
      (c : Core p) (s : ℕ)
      → WakesBut s c
      → (live (job_at p c s) ≡ true → Mem (due_entry p s (job_at p c s)) c.due_heap.entries.items)
      → Wakes c
  close c s w here = record {
    ordered = w.ordered;
    due = λ i. elim (Bool-cases (i == s)) [
      | inl same ↦ let e : i ≡ s = ground arith in rw e here
      | inr other ↦ w.due i (ground arith)
    ];
  }

  -- A slot that is not live asks for nothing.
  pub close_quiet : (c : Core p) (s : ℕ) → WakesBut s c → live (job_at p c s) ≡ false → Wakes c
  close_quiet c s w quiet = close c s w (λ h. ground arith)

  pub job_at-set :
      (c : Core p) (s i : ℕ) (r : JobRecord p)
      → job_at p (set_job p c s r) i ≡ (if (s == i) && ltb i (slots p c) then r else job_at p c i)
  job_at-set c s i r = ground (arith, get_or-set c.jobs.items s i r (new_job p))

  pub set-WakesBut :
      (c : Core p) (s : ℕ) (r : JobRecord p) → WakesBut s c → WakesBut s (set_job p c s r)
  set-WakesBut c s r w = record {
    ordered = w.ordered;
    due = λ i ne.
        let kept : job_at p (set_job p c s r) i ≡ job_at p c i =
          ground (arith, job_at-set c s i r) in
        rw kept (w.due i ne);
  }

  pub job_at-out : (c : Core p) (i : ℕ) → slots p c ≤ i → job_at p c i ≡ new_job p
  job_at-out c i h = get_or-out c.jobs.items i (new_job p) h

  -- The slot after a write, in range or not.
  pub job_at-written :
      (c : Core p) (s : ℕ) (r : JobRecord p)
      → (job_at p (set_job p c s r) s ≡ r) ⊎ (live (job_at p (set_job p c s r) s) ≡ false)
  unfolding new_job
  job_at-written c s r = elim (Bool-cases (ltb s (slots p c))) [
    | inl inside ↦ inl (ground (arith, job_at-set c s s r))
    | inr outside ↦ inr (ground (arith, job_at-set c s s r, job_at-out c s (ground arith)))
  ]

  pub set-quiet :
      (c : Core p) (s : ℕ) (r : JobRecord p)
      → WakesBut s c
      → live r ≡ false
      → Wakes (set_job p c s r)
  set-quiet c s r w quiet =
      close_quiet (set_job p c s r) s (set-WakesBut c s r w)
        (elim (job_at-written c s r) [ inl e ↦ rw e quiet | inr e ↦ e ])

  -- A write that leaves what the invariant reads.
  pub set-same :
      (c : Core p) (s : ℕ) (r : JobRecord p)
      → Wakes c
      → (live r ≡ true
          → (live (job_at p c s) ≡ true) × (due_entry p s r ≡ due_entry p s (job_at p c s)))
      → Wakes (set_job p c s r)
  set-same c s r w same =
      close (set_job p c s r) s (set-WakesBut c s r (forget c s w)) (elim (job_at-written c s r) [
        | inl e ↦ rw e (λ h. let (was, entry) = same h in rw entry (w.due s was))
        | inr e ↦ λ h. ground arith
      ])

  -- Nothing is lost when the heap gains an entry.
  grow-WakesBut :
      (s : ℕ) (jobs : List (JobRecord p)) (heap more : List DueHeapEntry) (e : DueHeapEntry)
      → WakesInBut s jobs heap
      → IsHeap more
      → Perm more (e ∷ heap)
      → WakesInBut s jobs more
  grow-WakesBut s jobs heap more e w ordered same = record {
    ordered = ordered;
    due = λ i ne live_i. (Perm.mem_iff same).1 (mem-cons_of_mem e (w.due i ne live_i));
  }

  -- `if (!pushDue(slot, record)) record.hasNext = false;` settles the slot.
  pub push_due_or_clear-Wakes :
      (c : Core p) (s : ℕ) → WakesBut s c → Wakes (push_due_or_clear p c s)
  push_due_or_clear-Wakes c s w =
      let r = job_at p c s in
      let e = due_entry p s r in
      elim (Bool-cases (live r)) [
        | inr quiet ↦
            let kept : push_due_or_clear p c s ≡ c =
              unfold push_due_or_clear push_due in ground arith in
            rw kept (close_quiet c s w quiet)
        | inl is_live ↦ elim (push-IsHeap p e c.due_heap c.world w.ordered) [
          | inl (ok, ordered, same) ↦
              let pushed = record c {
                due_heap = (DueHeap.push p e c.due_heap c.world).1;
                world = (DueHeap.push p e c.due_heap c.world).2;
              } in
              let kept : push_due_or_clear p c s ≡ pushed =
                unfold push_due_or_clear push_due in ground arith in
              rw kept (
                close pushed s
                  (grow-WakesBut s c.jobs.items c.due_heap.entries.items _ e w ordered same)
                  (λ h. (Perm.mem_iff same).1 mem-cons_self))
          | inr (full, unchanged) ↦
              let world = (DueHeap.push p e c.due_heap c.world).2 in
              let after =
                set_job p (record c { world = world }) s (record r { has_next = false }) in
              let kept : push_due_or_clear p c s ≡ after =
                unfold push_due_or_clear push_due in ground arith in
              rw kept (
                set-quiet (record c { world = world }) s (record r { has_next = false }) w
                  (ground arith))
        ]
      ]
