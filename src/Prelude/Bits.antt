-- ===== src/Prelude/Bits.antt =====
-- Single bits of native numbers: what `|`, `&`, `1ULL << v` and a difference of powers hold at each
-- position. The 64-bit masks of schedule/schedule_field.cpp and schedule_calculator.cpp use them.
use Prim.Native.Nat.{
  ℕ, zero, suc, ◌+◌, ◌-◌, ◌*◌, ◌/◌, ◌%◌, ◌^◌, ◌≤◌, ◌<◌, min, max, bit_and, bit_or, digits,
  bit_and-bitwise, bit_or-bitwise,
}
use mathlib.Core.Path.{◌≡◌, refl, ◌∙◌, ap}
use mathlib.Core.Logic.{◌≢◌, ◌↔◌, inl, inr}
use mathlib.Core.Bool.{Bool, true, false, not, ◌&&◌, ◌||◌}
use native.Mathlib.Nat.{pow-suc, one-le-pow}
use native.Mathlib.Omega.{arith}
use esp_scheduler.Prelude.Tests.{ltb, leb, ◌==◌, Bool-cases}

unfoldable pub test_bit : ℕ → ℕ → Bool
test_bit x zero = x % 2 == 1
test_bit x (suc i) = test_bit (x / 2) i

-- More fuel than the first operand changes no digit.
module _ (over : ℕ → ℕ) (digit : ℕ → ℕ → ℕ) where
  enough_digits : (f g a b : ℕ) → a ≤ f → a ≤ g → digits over digit f a b ≡ digits over digit g a b
  enough_digits zero zero zero b p q = refl
  enough_digits zero (suc g) zero b p q = refl
  enough_digits (suc f) zero zero b p q = refl
  enough_digits (suc f) (suc g) zero b p q = refl
  enough_digits (suc f) (suc g) (suc a) b p q =
      let rest = enough_digits f g (suc a / 2) (b / 2) (omega arith) (omega arith) in rw rest
  enough_digits zero g (suc a) b p q = absurd (omega arith)
  enough_digits (suc f) zero (suc a) b p q = absurd (omega arith)

  half_digits :
      (a b : ℕ)
      → digits over digit a (suc a / 2) (b / 2) ≡ digits over digit (suc a / 2) (suc a / 2) (b / 2)
  half_digits a b = enough_digits a (suc a / 2) (suc a / 2) (b / 2) (omega arith) (omega arith)

bit_or_halves : (a b : ℕ) → bit_or a b ≡ bit_or (a / 2) (b / 2) * 2 + max (a % 2) (b % 2)
bit_or_halves zero b = rw (bit_or-bitwise 0 b, bit_or-bitwise 0 (b / 2)) (omega arith)
bit_or_halves (suc a) b =
    rw (bit_or-bitwise (suc a) b, bit_or-bitwise (suc a / 2) (b / 2))
      (omega (arith, half_digits (λ n. n) max a b))

bit_and_halves : (a b : ℕ) → bit_and a b ≡ bit_and (a / 2) (b / 2) * 2 + min (a % 2) (b % 2)
bit_and_halves zero b = rw (bit_and-bitwise 0 b, bit_and-bitwise 0 (b / 2)) (omega arith)
bit_and_halves (suc a) b =
    rw (bit_and-bitwise (suc a) b, bit_and-bitwise (suc a / 2) (b / 2))
      (omega (arith, half_digits (λ _. 0) min a b))

pub test_bit-bit_or : (a b i : ℕ) → test_bit (bit_or a b) i ≡ (test_bit a i || test_bit b i)
unfolding test_bit
test_bit-bit_or a b zero = ground (arith, bit_or_halves a b)
test_bit-bit_or a b (suc i) =
    let half : bit_or a b / 2 ≡ bit_or (a / 2) (b / 2) = omega (arith, bit_or_halves a b) in
    rw half (test_bit-bit_or (a / 2) (b / 2) i)

pub test_bit-bit_and : (a b i : ℕ) → test_bit (bit_and a b) i ≡ (test_bit a i && test_bit b i)
unfolding test_bit
test_bit-bit_and a b zero = ground (arith, bit_and_halves a b)
test_bit-bit_and a b (suc i) =
    let half : bit_and a b / 2 ≡ bit_and (a / 2) (b / 2) = omega (arith, bit_and_halves a b) in
    rw half (test_bit-bit_and (a / 2) (b / 2) i)

pub test_bit-zero : (i : ℕ) → test_bit 0 i ≡ false
unfolding test_bit
test_bit-zero zero = refl
test_bit-zero (suc i) = test_bit-zero i

-- The bits from `m` up to `n`, without `n`.
pub test_bit-interval : (i m n : ℕ) → m ≤ n → test_bit (2 ^ n - 2 ^ m) i ≡ (leb m i && ltb i n)
unfolding test_bit
test_bit-interval zero zero zero h = refl
test_bit-interval zero zero (suc n) h = ground (arith, pow-suc 2 n, one-le-pow n 2)
test_bit-interval zero (suc m) zero h = absurd (omega arith)
test_bit-interval zero (suc m) (suc n) h = ground (arith, pow-suc 2 n, pow-suc 2 m)
test_bit-interval (suc i) zero zero h = test_bit-zero i ∙ ground arith
test_bit-interval (suc i) zero (suc n) h =
    let half : (2 ^ suc n - 2 ^ 0) / 2 ≡ 2 ^ n - 2 ^ 0 =
      omega (arith, pow-suc 2 n, one-le-pow n 2) in
    rw half (test_bit-interval i zero n (omega arith) ∙ ground arith)
test_bit-interval (suc i) (suc m) zero h = absurd (omega arith)
test_bit-interval (suc i) (suc m) (suc n) h =
    let half : (2 ^ suc n - 2 ^ suc m) / 2 ≡ 2 ^ n - 2 ^ m =
      omega (arith, pow-suc 2 n, pow-suc 2 m) in
    rw half (test_bit-interval i m n (omega arith) ∙ ground arith)

pub test_bit-two_pow : (v i : ℕ) → test_bit (2 ^ v) i ≡ (v == i)
unfolding test_bit
test_bit-two_pow v i =
    let single : 2 ^ v ≡ 2 ^ suc v - 2 ^ v = omega (arith, pow-suc 2 v) in
    rw single (test_bit-interval i v (suc v) (omega arith) ∙ ground arith)

-- A number with a bit set is not 0, and any other number has one.
pub ne-zero_of_test_bit : (x i : ℕ) → test_bit x i ≡ true → x ≢ 0
ne-zero_of_test_bit x i h e = cc (test_bit-zero i, ap (λ (y : ℕ). test_bit y i) e)

some_bit_below : (k x : ℕ) → x < k → x ≢ 0 → (i : ℕ) × (test_bit x i ≡ true)
unfolding test_bit
some_bit_below zero x b h = absurd (omega arith)
some_bit_below (suc k) zero b h = absurd (h refl)
some_bit_below (suc k) (suc zero) b h = (0, refl)
some_bit_below (suc k) (suc (suc x)) b h =
    let (i, p) = some_bit_below k (suc (suc x) / 2) (omega arith) (omega arith) in (suc i, p)

pub some_bit : (x : ℕ) → x ≢ 0 → (i : ℕ) × (test_bit x i ≡ true)
some_bit x h = some_bit_below (suc x) x (omega arith) h

-- `(x & (1 << v)) != 0` reads the bit `v`.
pub bit_and-two_pow : (x v : ℕ) → not (bit_and x (2 ^ v) == 0) ≡ test_bit x v
bit_and-two_pow x v = elim (Bool-cases (bit_and x (2 ^ v) == 0)) [
  | inl none_set ↦
      let cleared : bit_and x (2 ^ v) ≡ 0 = ground arith in
      ground (
        arith,
        test_bit-bit_and x (2 ^ v) v,
        test_bit-two_pow v v,
        ap (λ (y : ℕ). test_bit y v) cleared,
        test_bit-zero v,
      )
  | inr some_set ↦
      let (i, p) = some_bit (bit_and x (2 ^ v)) (ground arith) in
      let same : v ≡ i = ground (arith, test_bit-bit_and x (2 ^ v) i, test_bit-two_pow v i) in
      ground (arith, test_bit-bit_and x (2 ^ v) i, ap (λ (y : ℕ). test_bit x y) same)
]

-- Two masks meet exactly when some position is in both.
pub bit_and-ne-zero :
    (x y : ℕ)
    → (not (bit_and x y == 0) ≡ true) ↔ ((i : ℕ) × (test_bit x i ≡ true) × (test_bit y i ≡ true))
bit_and-ne-zero x y = (
  λ h.
      let (i, p) = some_bit (bit_and x y) (ground arith) in
      (i, ground (arith, test_bit-bit_and x y i), ground (arith, test_bit-bit_and x y i)),
  λ w.
      let nonzero =
        ne-zero_of_test_bit (bit_and x y) w.0 (rw (test_bit-bit_and x y w.0, w.1, w.2) refl) in
      ground (arith, nonzero),
)

bit_and-zero : (k a : ℕ) → a < k → bit_and a 0 ≡ 0
bit_and-zero zero a h = absurd (omega arith)
bit_and-zero (suc k) zero h = refl
bit_and-zero (suc k) (suc a) h =
    omega (arith, bit_and_halves (suc a) 0, bit_and-zero k (suc a / 2) (omega arith))

bit_and_le_below : (k a b : ℕ) → b < k → bit_and a b ≤ b
bit_and_le_below zero a b h = absurd (omega arith)
bit_and_le_below (suc k) a zero h = omega (arith, bit_and-zero (suc a) a (omega arith))
bit_and_le_below (suc k) a (suc b) h =
    omega (arith, bit_and_halves a (suc b), bit_and_le_below k (a / 2) (suc b / 2) (omega arith))

pub bit_and-le : (a b : ℕ) → bit_and a b ≤ b
bit_and-le a b = bit_and_le_below (suc b) a b (omega arith)
