-- ===== src/Base/Bits.antt =====
-- Bit operations at variables: a mask of low bits, and the test of a single bit.
use Prim.Native.Nat.{
  ℕ, zero, suc, ◌+◌, ◌-◌, ◌*◌, ◌/◌, ◌%◌, ◌^◌, ◌≤◌, min, bit_and, digits, bit_and-bitwise,
}
use mathlib.Core.Path.{◌≡◌, refl, ap}
use native.Mathlib.Nat.{
  pow-le-pow_right, pow-suc, pow-succ', one-le-pow, div-div-eq-div-mul, mod-add-div',
}
use native.Mathlib.Omega.{arith}

-- What the native operation computes with: the digits of both numbers, on fuel.
abbrev meet : ℕ → ℕ → ℕ → ℕ
meet n a b = digits (λ y. zero) min n a b

-- Any fuel that covers the first number gives the same digits.
meet_fuel : (n m a b : ℕ) → a ≤ n → a ≤ m → meet n a b ≡ meet m a b
meet_fuel zero zero zero b p q = refl
meet_fuel zero (suc m) zero b p q = refl
meet_fuel (suc n) zero zero b p q = refl
meet_fuel (suc n) (suc m) zero b p q = refl
meet_fuel zero m (suc a) b p q = absurd (omega arith)
meet_fuel (suc n) zero (suc a) b p q = absurd (omega arith)
meet_fuel (suc n) (suc m) (suc a) b p q =
    omega (arith, meet_fuel n m (suc a / 2) (b / 2) (omega arith) (omega arith))

-- The lowest digit of a conjunction, and the rest.
pub bit_and_digit : (a b : ℕ) → bit_and a b ≡ 2 * bit_and (a / 2) (b / 2) + min (a % 2) (b % 2)
bit_and_digit zero b = omega (arith, bit_and-bitwise 0 b, bit_and-bitwise 0 (b / 2))
bit_and_digit (suc a) b = omega (
  arith,
  bit_and-bitwise (suc a) b,
  bit_and-bitwise (suc a / 2) (b / 2),
  meet_fuel a (suc a / 2) (suc a / 2) (b / 2) (omega arith) (omega arith),
)

bit_and-zero_below : (n a : ℕ) → a ≤ n → bit_and a 0 ≡ 0
bit_and-zero_below n zero h = refl
bit_and-zero_below zero (suc a) h = absurd (omega arith)
bit_and-zero_below (suc n) (suc a) h =
    omega (arith, bit_and_digit (suc a) 0, bit_and-zero_below n (suc a / 2) (omega arith))

pub bit_and-zero : (a : ℕ) → bit_and a 0 ≡ 0
bit_and-zero a = bit_and-zero_below a a (omega arith)

half_quotient : (a k : ℕ) → a / 2 / 2 ^ k ≡ a / 2 ^ suc k
half_quotient a k = rw (pow-succ' 2 k, div-div-eq-div-mul a 2 (2 ^ k))

half_pow : (k : ℕ) → 2 ^ suc k / 2 ≡ 2 ^ k
half_pow k = omega (arith, pow-suc 2 k)

mod-pow-suc : (a k : ℕ) → a % 2 ^ suc k ≡ 2 * (a / 2 % 2 ^ k) + a % 2
mod-pow-suc a k = omega (
  arith,
  mod-add-div' a (2 ^ suc k),
  mod-add-div' (a / 2) (2 ^ k),
  ap (λ (t : ℕ). t * 2 ^ k) (half_quotient a k),
  ap (λ (t : ℕ). a / 2 ^ suc k * t) (pow-suc 2 k),
)

-- A mask of the `k` lowest bits takes the remainder by `2 ^ k`.
pub bit_and_low : (k a : ℕ) → bit_and a (2 ^ k - 1) ≡ a % 2 ^ k
bit_and_low zero a = omega (arith, bit_and-zero a)
bit_and_low (suc k) a = ground (
  arith,
  bit_and_digit a (2 ^ suc k - 1),
  pow-suc 2 k,
  one-le-pow k 2,
  bit_and_low k (a / 2),
  mod-pow-suc a k,
)

-- A mask of the single bit `k` keeps that bit in place.
pub bit_and_single : (k a : ℕ) → bit_and a (2 ^ k) ≡ a / 2 ^ k % 2 * 2 ^ k
bit_and_single zero a = omega (arith, bit_and_digit a 1, bit_and-zero (a / 2))
bit_and_single (suc k) a = omega (
  arith,
  bit_and_digit a (2 ^ suc k),
  pow-suc 2 k,
  ap (λ (t : ℕ). bit_and (a / 2) t) (half_pow k),
  bit_and_single k (a / 2),
  ap (λ (t : ℕ). t % 2 * 2 ^ k) (half_quotient a k),
  ap (λ (t : ℕ). a / 2 ^ suc k % 2 * t) (pow-suc 2 k),
)

-- The bits below `k + 1` are those below `k` and bit `k`.
pub mod-pow_step : (q k : ℕ) → q % 2 ^ k + q / 2 ^ k % 2 * 2 ^ k ≡ q % 2 ^ suc k
mod-pow_step q k = omega (
  arith,
  mod-add-div' q (2 ^ suc k),
  mod-add-div' q (2 ^ k),
  ap (λ (t : ℕ). t * 2 ^ k) (mod-add-div' (q / 2 ^ k) 2),
  ap (λ (t : ℕ). t * (2 * 2 ^ k)) (div-div-eq-div-mul q (2 ^ k) 2),
  ap (λ (t : ℕ). q / 2 ^ suc k * t) (pow-suc 2 k),
  ap (λ (t : ℕ). q / t * (2 * 2 ^ k)) (pow-suc 2 k),
)

pub two-pow-pos : (k : ℕ) → 1 ≤ 2 ^ k
two-pow-pos k = one-le-pow k 2 (omega arith)

pub two-pow-le : (j k : ℕ) → j ≤ k → 2 ^ j ≤ 2 ^ k
two-pow-le j k h = pow-le-pow_right (omega arith) h
