-- ===== src/Core/Arithmetic/Power.antt =====
-- core/src/eval/arithmetic.rs: EXP and its loop of squarings.
use native.Mathlib.Nat.{mod-eq_of_lt, mul_assoc, mul_comm, mul-one, pow-zero, pow-suc}
use sputnikvm.Base.{
  ℕ, zero, suc, ◌+◌, ◌*◌, ◌/◌, ◌%◌, ◌^◌, ◌<◌, ◌≡◌, refl, sym, ap, ◌∙◌, ◌==◌, arith, suc-==-zero,
  Bool-cases, inl, inr,
}
use sputnikvm.Base.Arith.{pow_square, pow-add, mod-mul_left, mod-mul_right, mod-pow}
use sputnikvm.Base.Bits.{bit_and_low}
use sputnikvm.PrimitiveTypes.{U256Ops, u256_mod}
use sputnikvm.Core.Arithmetic.{exp_loop, exp}

-- A power by its exponent's half and its lowest bit.
pow_halves : (a n : ℕ) → a ^ n ≡ (a * a) ^ (n / 2) * a ^ (n % 2)
pow_halves a n =
    ap (λ (t : ℕ). a ^ t) (omega arith)
    ∙ pow-add a (n / 2 + n / 2) (n % 2)
    ∙ ap (λ (t : ℕ). t * a ^ (n % 2)) (pow-add a (n / 2) (n / 2) ∙ sym (pow_square a (n / 2)))

power_of_rest : (r x k m : ℕ) → (r * (x % m) ^ k) % m ≡ (r * x ^ k) % m
power_of_rest r x k m =
    sym (mod-mul_right r ((x % m) ^ k) m)
    ∙ ap (λ (t : ℕ). r * t % m) (mod-pow x k m)
    ∙ mod-mul_right r (x ^ k) m

pow-one : (x : ℕ) → x ^ 1 ≡ x
pow-one x = rw (pow-suc x 0, pow-zero) (omega arith)

-- One round with an even exponent, and one with an odd exponent.
even_round : (r x n m : ℕ) → n % 2 ≡ 0 → (r * ((x * x) % m) ^ (n / 2)) % m ≡ (r * x ^ n) % m
even_round r x n m even =
    power_of_rest r (x * x) (n / 2) m
    ∙ ap (λ (t : ℕ). r * t % m) (sym (pow_halves x n ∙ rw (even, pow-zero, mul-one) refl))

odd_round :
    (r x n m : ℕ) → n % 2 ≡ 1 → ((r * x) % m * ((x * x) % m) ^ (n / 2)) % m ≡ (r * x ^ n) % m
odd_round r x n m odd =
    power_of_rest ((r * x) % m) (x * x) (n / 2) m
    ∙ mod-mul_left (r * x) ((x * x) ^ (n / 2)) m
    ∙ ap (λ (t : ℕ). t % m)
        (mul_assoc r x ((x * x) ^ (n / 2))
          ∙ ap (λ (t : ℕ). r * t)
              (mul_comm x ((x * x) ^ (n / 2))
                ∙ sym (
                    pow_halves x n
                    ∙ ap (λ (t : ℕ). (x * x) ^ (n / 2) * t)
                        (ap (λ (t : ℕ). x ^ t) odd ∙ pow-one x))))

module _ ⦃U : U256Ops⦄ where
  low_bit : (n : ℕ) → U.bitand n 1 ≡ n % 2
  low_bit n = U.bitand_law n 1 ∙ bit_and_low 1 n

  -- The invariant of the loop: `r * op1 ^ op2` keeps its remainder.
  exp_loop_lem :
      (fuel op1 op2 r : ℕ)
      → op2 < 2 ^ fuel
      → r < u256_mod
      → exp_loop fuel op1 op2 r ≡ (r * op1 ^ op2) % u256_mod
  unfolding exp_loop
  exp_loop_lem zero op1 op2 r h small =
      let e : op2 ≡ 0 = omega arith in rw (e, pow-zero, mul-one) (sym (mod-eq_of_lt small))
  exp_loop_lem (suc fuel) op1 zero r h small = rw (pow-zero, mul-one) (sym (mod-eq_of_lt small))
  exp_loop_lem (suc fuel) op1 (suc n) r h small =
      rw
        (
          suc-==-zero n,
          U.overflowing_mul_law op1 op1,
          U.overflowing_mul_law r op1,
          U.shift_right_law (suc n) 1 (omega arith),
          low_bit (suc n),
        )
        (elim (Bool-cases (suc n % 2 == 0)) [
          | inl even ↦ rw even (
              exp_loop_lem fuel ((op1 * op1) % u256_mod) (suc n / 2) r
                (omega (arith, pow-suc 2 fuel)) small
              ∙ even_round r op1 (suc n) u256_mod (ground arith))
          | inr odd ↦ rw odd (
              exp_loop_lem fuel ((op1 * op1) % u256_mod) (suc n / 2) ((r * op1) % u256_mod)
                (omega (arith, pow-suc 2 fuel)) (omega arith)
              ∙ odd_round r op1 (suc n) u256_mod (ground arith))
        ])

  -- `exp` is the power, cut to a word, for every exponent that is a word: 256 rounds are enough.
  pub exp_lem : (a b : ℕ) → b < u256_mod → exp a b ≡ (a ^ b) % u256_mod
  unfolding exp
  exp_lem a b h =
      exp_loop_lem 256 a b 1 h (omega arith) ∙ ap (λ (t : ℕ). t % u256_mod) (omega arith)
