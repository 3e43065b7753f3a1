-- ===== src/Core/Utils.antt =====
-- core/src/utils.rs: the signed view of a word, as a sign and a magnitude.
pub mod Signed
pub mod Division
use Prim.Native.Nat.{compare, Ordering}
use sputnikvm.Base.{ℕ, ◌-◌, ◌^◌, Bool, true, false, ◌&&◌, ◌==◌, if◌then◌else◌}
use sputnikvm.PrimitiveTypes.{U256Ops}

pub data Sign : Type 0 where
  plus minus no_sign : Sign

pub record I256 : Type 0 where
  pub sign : Sign
  pub magnitude : ℕ

abbrev pub sign_bit_mask : ℕ
sign_bit_mask = 2 ^ 255 - 1

abbrev pub zero_i256 : I256
zero_i256 = record { sign = no_sign; magnitude = 0 }

-- The derived equality of signs, and of values.
abbrev sign_eq : Sign → Sign → Bool
sign_eq plus plus = true
sign_eq minus minus = true
sign_eq no_sign no_sign = true
sign_eq _ _ = false

abbrev pub i256_eq : I256 → I256 → Bool
i256_eq a b = sign_eq a.sign b.sign && (a.magnitude == b.magnitude)

abbrev reverse_ordering : Ordering → Ordering
reverse_ordering Ordering.lt = Ordering.gt
reverse_ordering Ordering.eq = Ordering.eq
reverse_ordering Ordering.gt = Ordering.lt

cmp_signs : Sign → Sign → ℕ → ℕ → Ordering
cmp_signs no_sign no_sign a b = Ordering.eq
cmp_signs no_sign plus a b = Ordering.lt
cmp_signs no_sign minus a b = Ordering.gt
cmp_signs minus no_sign a b = Ordering.lt
cmp_signs minus plus a b = Ordering.lt
cmp_signs minus minus a b = reverse_ordering (compare a b)
cmp_signs plus minus a b = Ordering.gt
cmp_signs plus no_sign a b = Ordering.gt
cmp_signs plus plus a b = compare a b

-- `Ord::cmp`
unfoldable pub cmp : I256 → I256 → Ordering
unfolding cmp_signs
cmp a b = cmp_signs a.sign b.sign a.magnitude b.magnitude

-- The sign of a quotient, by the signs of its operands.
quotient_sign : Sign → Sign → Sign
quotient_sign no_sign plus = plus
quotient_sign plus no_sign = plus
quotient_sign no_sign no_sign = plus
quotient_sign plus plus = plus
quotient_sign minus minus = plus
quotient_sign no_sign minus = minus
quotient_sign plus minus = minus
quotient_sign minus no_sign = minus
quotient_sign minus plus = minus

-- A magnitude with a sign; a zero has no sign.
with_sign : Sign → ℕ → I256
with_sign s magnitude =
    if magnitude == 0 then zero_i256 else record { sign = s; magnitude = magnitude }

module _ ⦃U : U256Ops⦄ where
  unfoldable pub min_value : I256
  min_value = record { sign = minus; magnitude = U.add (U.bitand (2 ^ 256 - 1) sign_bit_mask) 1 }

  -- `From<U256>`
  pub from : ℕ → I256
  from val =
      if val == 0
      then zero_i256
      else if U.bitand val sign_bit_mask == val
      then record { sign = plus; magnitude = val }
      else record { sign = minus; magnitude = U.add (U.complement val) 1 }

  -- `Into<U256>`
  pub into : I256 → ℕ
  into v =
      if sign_eq v.sign no_sign
      then 0
      else if sign_eq v.sign plus
      then v.magnitude
      else U.add (U.complement v.magnitude) 1

  pub div : I256 → I256 → I256
  unfolding quotient_sign
  div a b =
      if i256_eq b zero_i256
      then zero_i256
      else if i256_eq a min_value && (b.magnitude == 1)
      then min_value
      else with_sign (quotient_sign a.sign b.sign)
          (U.bitand (U.div a.magnitude b.magnitude) sign_bit_mask)

  pub rem : I256 → I256 → I256
  rem a b = with_sign a.sign (U.bitand (U.rem a.magnitude b.magnitude) sign_bit_mask)
