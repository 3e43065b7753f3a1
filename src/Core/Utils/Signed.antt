-- ===== src/Core/Utils/Signed.antt =====
-- core/src/utils.rs: the conversions of the signed view and its order, stated with integers.
use Prim.Native.Nat.{Ordering}
use sputnikvm.Base.{
  ℕ, zero, suc, ◌-◌, ◌%◌, ◌^◌, ◌<◌, ◌≡◌, refl, sym, ◌∙◌, ltb, ◌==◌, if◌then◌else◌, arith,
}
use native.Mathlib.Decide.{dec_lt}
use sputnikvm.Base.{lt→ltb, le→ltb, suc-==-zero}
use sputnikvm.Base.Int.{ℤ, pos, negsuc, lt_int}
use sputnikvm.Base.Bits.{bit_and_low}
use sputnikvm.PrimitiveTypes.{U256Ops, u256_mod}
use sputnikvm.Core.Utils.{plus, minus, I256, sign_bit_mask, zero_i256, cmp, from, into}

-- The integer that a word stands for in two's complement.
abbrev pub signed : ℕ → ℤ
signed w = if ltb w (2 ^ 255) then pos w else negsuc (2 ^ 256 - 1 - w)

-- The word of an integer, cut to 256 bits.
abbrev pub word : ℤ → ℕ
word (pos n) = n % 2 ^ 256
word (negsuc n) = 2 ^ 256 - 1 - n % 2 ^ 256

-- A word with its signed view and its integer, in the three cases of `from`.
pub data Shape : ℕ → I256 → ℤ → Type 0 where
  of_zero : Shape 0 zero_i256 (pos 0)
  of_plus : (n : ℕ) → 0 < n → n < 2 ^ 255 → Shape n (record { sign = plus; magnitude = n }) (pos n)
  of_minus :
      {a : ℕ} (k : ℕ)
      → k < 2 ^ 255
      → a ≡ 2 ^ 256 - suc k
      → Shape a (record { sign = minus; magnitude = suc k }) (negsuc k)

module _ ⦃U : U256Ops⦄ where
  pub mask_lem : (a : ℕ) → U.bitand a sign_bit_mask ≡ a % 2 ^ 255
  mask_lem a = U.bitand_law a sign_bit_mask ∙ bit_and_low 255 a

  pub from_lem :
      (a : ℕ)
      → a < u256_mod
      → from a ≡ (
          if a == 0
          then zero_i256
          else if ltb a (2 ^ 255)
          then record { sign = plus; magnitude = a }
          else record { sign = minus; magnitude = 2 ^ 256 - a })
  unfolding from
  from_lem a h =
      rw (mask_lem a, U.complement_law a h) (ground (arith, U.add_law (u256_mod - 1 - a) 1))

  pub into_minus :
      (m : ℕ) → 0 < m → m < u256_mod → into (record { sign = minus; magnitude = m }) ≡ 2 ^ 256 - m
  unfolding into
  into_minus m p h = rw (U.complement_law m h) (ground (arith, U.add_law (u256_mod - 1 - m) 1))

  pub from-Shape : (a : ℕ) → a < u256_mod → Shape a (from a) (signed a)
  from-Shape zero h = rw from_lem of_zero
  from-Shape (suc n) h = elim (dec_lt (suc n) (2 ^ 255)) [
    | yes small ↦
        rw (from_lem (suc n) h, suc-==-zero n, lt→ltb (suc n) (2 ^ 255) small)
          (of_plus (suc n) (omega arith) small)
    | no large ↦
        let e : 2 ^ 256 - suc n ≡ suc (2 ^ 256 - 1 - suc n) = omega arith in
        rw (from_lem (suc n) h, suc-==-zero n, le→ltb (suc n) (2 ^ 255) (omega arith), e)
          (of_minus (2 ^ 256 - 1 - suc n) (omega arith) (omega arith))
  ]

  pub into-Shape : {a : ℕ} {v : I256} {z : ℤ} → Shape a v z → into v ≡ a
  into-Shape of_zero = unfold into in refl
  into-Shape (of_plus n p h) = unfold into in refl
  into-Shape (of_minus k h e) = into_minus (suc k) (omega arith) (omega arith) ∙ sym e

  -- Converting a word to its signed view and back gives the word.
  pub into-from : (a : ℕ) → a < u256_mod → into (from a) ≡ a
  into-from a h = into-Shape (from-Shape a h)

  pub cmp-Shape :
      {a b : ℕ} {v w : I256} {y z : ℤ}
      → Shape a v y
      → Shape b w z
      → cmp v w
        ≡ (if lt_int y z then Ordering.lt else if lt_int z y then Ordering.gt else Ordering.eq)
  unfolding cmp
  cmp-Shape of_zero of_zero = ground arith
  cmp-Shape of_zero (of_plus n p h) = ground arith
  cmp-Shape of_zero (of_minus k h e) = ground arith
  cmp-Shape (of_plus m q g) of_zero = ground arith
  cmp-Shape (of_plus m q g) (of_plus n p h) = ground arith
  cmp-Shape (of_plus m q g) (of_minus k h e) = ground arith
  cmp-Shape (of_minus j g d) of_zero = ground arith
  cmp-Shape (of_minus j g d) (of_plus n p h) = ground arith
  cmp-Shape (of_minus j g d) (of_minus k h e) = ground arith

  -- The order of the signed view is that of the integers.
  pub cmp_lem :
      (a b : ℕ)
      → a < u256_mod
      → b < u256_mod
      → cmp (from a) (from b) ≡ (
          if lt_int (signed a) (signed b)
          then Ordering.lt
          else if lt_int (signed b) (signed a)
          then Ordering.gt
          else Ordering.eq)
  cmp_lem a b ha hb = cmp-Shape (from-Shape a ha) (from-Shape b hb)
