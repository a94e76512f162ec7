-- ===== src/Core/IdIndex/Probe.antt =====
-- The probe sequence of an id, what a well-formed table holds along it, and lookups.
use esp_scheduler.Prelude.{
  ◌+◌, ◌-◌, ◌<◌, ◌≡◌, ◌≢◌, ◌||◌, ◌==◌, ℕ, zero, suc, ap, inl, inr, none, some, List, arith,
  Bool-cases, Option-cases, length,
}
use esp_scheduler.Prelude.Bits.{bit_and-le}
use esp_scheduler.Core.IdIndex.{
  empty, occupied, Entry, IdIndex, at, hash, home, next, find_loop, find_position, get,
}

-- The position after `d` steps from the id's own.
unfoldable pub walk : ℕ → ℕ → ℕ → ℕ
walk capacity job_id zero = home capacity job_id
walk capacity job_id (suc d) = next capacity (walk capacity job_id d)

pub walk-lt : (capacity job_id d : ℕ) → 0 < capacity → walk capacity job_id d < capacity
unfolding walk home next
walk-lt capacity job_id zero h = omega (arith, bit_and-le (hash job_id) (capacity - 1))
walk-lt capacity job_id (suc d) h =
    omega (arith, bit_and-le (walk capacity job_id d + 1) (capacity - 1))

abbrev pub Holds : List Entry → ℕ → ℕ → Type 0
Holds es job_id i = ((at es i).state ≡ occupied) × ((at es i).job_id ≡ job_id)

-- No search for the id stops at this entry.
abbrev pub Passed : List Entry → ℕ → ℕ → Type 0
Passed es job_id i = ((at es i).state ≢ empty) × ¬ Holds es job_id i

-- The entry at `i` can be reached from its id's own position.
pub record Reached (es : List Entry) (i : ℕ) : Type 0 where
  pub steps : ℕ
  pub within : steps < length es
  pub arrives : walk (length es) (at es i).job_id steps ≡ i
  pub unbroken : (j : ℕ) → j < steps → (at es (walk (length es) (at es i).job_id j)).state ≢ empty

-- Each id stands once, is not 0, and can be reached.
pub record IsValid (t : IdIndex) : Type 0 where
  pub reached :
      (i : ℕ) → i < length t.entries → (at t.entries i).state ≡ occupied → Reached t.entries i
  pub unique :
      (i j job_id : ℕ)
      → i < length t.entries
      → j < length t.entries
      → Holds t.entries job_id i
      → Holds t.entries job_id j
      → i ≡ j
  pub nonzero :
      (i : ℕ)
      → i < length t.entries
      → (at t.entries i).state ≡ occupied
      → (at t.entries i).job_id ≢ 0

next-lt : (capacity x : ℕ) → 0 < capacity → next capacity x < capacity
unfolding next
next-lt capacity x h = omega (arith, bit_and-le (x + 1) (capacity - 1))

find_loop-Holds :
    (left : ℕ) (es : List Entry) (job_id x i : ℕ)
    → x < length es
    → find_loop left es job_id x ≡ some i
    → (i < length es) × Holds es job_id i
unfolding find_loop
find_loop-Holds zero es job_id x i h e = cc
find_loop-Holds (suc left) es job_id x i h e = ground (
  arith,
  next-lt (length es) x (omega arith),
  find_loop-Holds left es job_id (next (length es) x) i,
)

-- From step `d` on, the loop finds an id that stands `e` steps further, past entries in use.
find_loop-finds :
    (e left d : ℕ) (es : List Entry) (job_id : ℕ)
    → e < left
    → ((j : ℕ) → j < d + e → (at es (walk (length es) job_id j)).state ≢ empty)
    → Holds es job_id (walk (length es) job_id (d + e))
    → find_loop left es job_id (walk (length es) job_id d) ≢ none
unfolding find_loop walk
find_loop-finds e zero d es job_id h used here = absurd (omega arith)
find_loop-finds zero (suc left) d es job_id h used here =
    let same : d + 0 ≡ d = omega arith in
    let found : Holds es job_id (walk (length es) job_id d) = rw same at here in ground arith
find_loop-finds (suc e) (suc left) d es job_id h used here =
    let same : d + suc e ≡ suc d + e = omega arith in
    let rest =
      find_loop-finds e left (suc d) es job_id (omega arith) (rw same at used) (rw same at here) in
    ground (arith, used d (omega arith), rest)

-- `Has t id s`: the id stands in the table, with the slot `s`.
abbrev pub Has : IdIndex → ℕ → ℕ → Type 0
Has t job_id s =
    (i : ℕ) × (i < length t.entries) × Holds t.entries job_id i × ((at t.entries i).slot_index ≡ s)

-- A position that `get` and `remove` act on holds the id.
pub find_position-Holds :
    (t : IdIndex) (job_id i : ℕ)
    → find_position t job_id ≡ some i
    → (i < length t.entries) × Holds t.entries job_id i
unfolding find_position
find_position-Holds t job_id i e =
    let es = t.entries in
    elim (Bool-cases (length es == 0 || job_id == 0)) [
      | inl off ↦ ground arith
      | inr on ↦
          let start = walk-lt (length es) job_id 0 (ground arith) in
          find_loop-Holds (length es) es job_id (home (length es) job_id) i (unfold walk in start)
            (ground arith)
    ]

-- A table finds every id that it holds, and only where it stands.
pub find_position-finds :
    (t : IdIndex) (job_id i : ℕ)
    → IsValid t
    → i < length t.entries
    → Holds t.entries job_id i
    → find_position t job_id ≡ some i
find_position-finds t job_id i v h here =
    let es = t.entries in
    let path = v.reached i h here.0 in
    let same : (at es i).job_id ≡ job_id = here.1 in
    let arrived : walk (length es) job_id path.steps ≡ i = rw same at path.arrives in
    let used : (j : ℕ) → j < 0 + path.steps → (at es (walk (length es) job_id j)).state ≢ empty =
      λ j b. rw same at (path.unbroken j (omega arith)) in
    let whole : 0 + path.steps ≡ path.steps = omega arith in
    let there : Holds es job_id (walk (length es) job_id (0 + path.steps)) =
      rw (whole, arrived) here in
    let found = find_loop-finds path.steps (length es) 0 es job_id path.within used there in
    let nonzero : job_id ≢ 0 = rw same at (v.nonzero i h here.0) in
    elim (Option-cases (find_position t job_id)) [
      | inl none_found ↦ absurd (found (unfold find_position walk in ground arith))
      | inr (k, e) ↦
          let (k_in, k_here) = find_position-Holds t job_id k e in
          let position : k ≡ i = v.unique k i job_id k_in h k_here here in rw (e, position)
    ]

pub get-some-Has : (t : IdIndex) (job_id s : ℕ) → get t job_id ≡ some s → Has t job_id s
unfolding get
get-some-Has t job_id s e = elim (Option-cases (find_position t job_id)) [
  | inl none_found ↦ ground arith
  | inr (i, at_i) ↦
      let (inside, here) = find_position-Holds t job_id i at_i in (i, inside, here, ground arith)
]

-- `get` answers with the slot that stands with the id.
pub Has-get : (t : IdIndex) (job_id s : ℕ) → IsValid t → Has t job_id s → get t job_id ≡ some s
unfolding get
Has-get t job_id s v (i, h, here, slot) =
    rw (find_position-finds t job_id i v h here) (ap some slot)
