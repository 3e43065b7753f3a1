-- ===== src/Core/Arithmetic/Modular.antt =====
-- DIV, MOD, ADDMOD and MULMOD on numbers.
use sputnikvm.Base.{
  ℕ, zero, suc, ◌+◌, ◌*◌, ◌/◌, ◌%◌, ◌^◌, ◌<◌, ◌≡◌, refl, ◌==◌, if◌then◌else◌, arith, suc-==-zero,
}
use sputnikvm.PrimitiveTypes.{U256Ops, u256_mod}
use sputnikvm.Core.Arithmetic.{div, rem, addmod, mulmod}

module _ ⦃U : U256Ops⦄ where
  pub div_lem : (a b : ℕ) → div a b ≡ (if b == 0 then 0 else a / b)
  unfolding div
  div_lem a b = ground (arith, U.div_law a b)

  pub rem_lem : (a b : ℕ) → rem a b ≡ (if b == 0 then 0 else a % b)
  unfolding rem
  rem_lem a b = ground (arith, U.rem_law a b)

  square_fits : (a b : ℕ) → a < u256_mod → b < u256_mod → a * b < 2 ^ 512
  square_fits a b ha hb = grind arith

  -- For words, `addmod` is the remainder of the sum, which is not cut to a word first; by zero it is 0.
  pub addmod_lem :
      (a b n : ℕ)
      → a < u256_mod
      → b < u256_mod
      → n < u256_mod
      → addmod a b n ≡ (if n == 0 then 0 else (a + b) % n)
  unfolding addmod
  addmod_lem a b zero ha hb hn = refl
  addmod_lem a b (suc n) ha hb hn =
      rw
        (
          suc-==-zero n,
          U.add_u512_law a b (omega arith),
          U.rem_u512_law (a + b) (suc n) (omega arith),
        )
        (U.expect_u256_law ((a + b) % suc n) (omega arith))

  -- For words, `mulmod` is the remainder of the product, which is not cut to a word first; by zero it is 0.
  pub mulmod_lem :
      (a b n : ℕ)
      → a < u256_mod
      → b < u256_mod
      → n < u256_mod
      → mulmod a b n ≡ (if n == 0 then 0 else (a * b) % n)
  unfolding mulmod
  mulmod_lem a b zero ha hb hn = refl
  mulmod_lem a b (suc n) ha hb hn =
      rw
        (
          suc-==-zero n,
          U.mul_u512_law a b (square_fits a b ha hb),
          U.rem_u512_law (a * b) (suc n) (omega arith),
        )
        (U.expect_u256_law ((a * b) % suc n) (omega arith))

  -- For words, `addmod` is the remainder of the sum and `mulmod` that of the product, neither of which is
  -- cut to a word first; by zero both are 0.
  pub modular_lem :
      (a b n : ℕ)
      → a < u256_mod
      → b < u256_mod
      → n < u256_mod
      → (addmod a b n ≡ (if n == 0 then 0 else (a + b) % n))
        × (mulmod a b n ≡ (if n == 0 then 0 else (a * b) % n))
  modular_lem a b n ha hb hn = (addmod_lem a b n ha hb hn, mulmod_lem a b n ha hb hn)
