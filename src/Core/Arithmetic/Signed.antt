-- ===== src/Core/Arithmetic/Signed.antt =====
-- SDIV and SMOD on integers.
use sputnikvm.Base.{ℕ, ◌<◌, ◌≡◌, ◌==◌, if◌then◌else◌, arith}
use sputnikvm.Base.Int.{quotient, remainder}
use sputnikvm.PrimitiveTypes.{U256Ops, u256_mod}
use sputnikvm.Core.Utils.Signed.{signed, word, from-Shape}
use sputnikvm.Core.Utils.Division.{div-Shape, rem-Shape}
use sputnikvm.Core.Arithmetic.{sdiv, srem}

module _ ⦃U : U256Ops⦄ (a b : ℕ) (ha : a < u256_mod) (hb : b < u256_mod) where
  -- For words, `sdiv` is the quotient of the integers that they stand for, rounded towards zero and cut to a
  -- word, so that the least integer divided by -1 is itself; a quotient by zero is 0.
  pub sdiv_lem : sdiv a b ≡ (if b == 0 then 0 else word (quotient (signed a) (signed b)))
  unfolding sdiv
  sdiv_lem = div-Shape (from-Shape a ha) (from-Shape b hb)

  -- For words, `srem` is the remainder of that quotient, with the sign of the dividend; a remainder by zero
  -- is 0.
  pub srem_lem : srem a b ≡ (if b == 0 then 0 else word (remainder (signed a) (signed b)))
  unfolding srem
  srem_lem = ground (arith, rem-Shape (from-Shape a ha) (from-Shape b hb))

  -- For words, `sdiv` is the quotient of the integers that they stand for, rounded towards zero and cut to a
  -- word, so that the least integer divided by -1 is itself; `srem` is the remainder of that quotient, with
  -- the sign of the dividend; by zero both are 0.
  pub signed_division_lem :
      (sdiv a b ≡ (if b == 0 then 0 else word (quotient (signed a) (signed b))))
      × (srem a b ≡ (if b == 0 then 0 else word (remainder (signed a) (signed b))))
  signed_division_lem = (sdiv_lem, srem_lem)
