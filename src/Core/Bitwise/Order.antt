-- ===== src/Core/Bitwise/Order.antt =====
-- core/src/eval/bitwise.rs: SLT and SGT, by the integers that the words stand for.
use sputnikvm.Base.{ℕ, ◌<◌, ◌≡◌, true, false, if◌then◌else◌, arith}
use sputnikvm.Base.Int.{ℤ, pos, negsuc, lt_int}
use sputnikvm.PrimitiveTypes.{U256Ops, u256_mod}
use sputnikvm.Core.Utils.Signed.{signed, cmp_lem}
use sputnikvm.Core.Bitwise.{slt, sgt}

lt_int_asymm : (y z : ℤ) → lt_int y z ≡ true → lt_int z y ≡ false
lt_int_asymm (pos a) (pos b) h = ground arith
lt_int_asymm (pos a) (negsuc b) h = cc
lt_int_asymm (negsuc a) (pos b) h = ground arith
lt_int_asymm (negsuc a) (negsuc b) h = ground arith

module _ ⦃U : U256Ops⦄ (a b : ℕ) (ha : a < u256_mod) (hb : b < u256_mod) where
  -- For words, `slt a b` is 1 if the integer of `a` is less than that of `b`, and else 0.
  pub slt_lem : slt a b ≡ (if lt_int (signed a) (signed b) then 1 else 0)
  unfolding slt
  slt_lem = ground (arith, cmp_lem a b ha hb)

  -- For words, `sgt a b` is 1 if the integer of `a` is greater than that of `b`, and else 0.
  pub sgt_lem : sgt a b ≡ (if lt_int (signed b) (signed a) then 1 else 0)
  unfolding sgt
  sgt_lem = ground (arith, cmp_lem a b ha hb, lt_int_asymm (signed a) (signed b))

  -- For words, `slt a b` is 1 if the integer of `a` is less than that of `b`, and else 0; `sgt a b` is 1 if
  -- it is greater, and else 0.
  pub signed_order_lem :
      (slt a b ≡ (if lt_int (signed a) (signed b) then 1 else 0))
      × (sgt a b ≡ (if lt_int (signed b) (signed a) then 1 else 0))
  signed_order_lem = (slt_lem, sgt_lem)
