-- ===== src/Core/Utils/Division.antt =====
-- core/src/utils.rs: the quotient and the remainder of the signed view, stated with integers.
use sputnikvm.Base.{
  ℕ, zero, suc, ◌-◌, ◌*◌, ◌/◌, ◌%◌, ◌^◌, ◌≤◌, ◌<◌, ◌≡◌, refl, ap, inl, inr, false, ◌&&◌, ◌==◌,
  if◌then◌else◌, arith,
}
use native.Mathlib.Decide.{dec_le}
use native.Mathlib.Nat.{mod-eq_of_lt, mod-lt, zero-mod, zero-lt-suc, div-add-mod'}
use sputnikvm.Base.{Bool-cases, suc-==-zero, pos→==_zero}
use sputnikvm.Base.Int.{ℤ, pos, neg, quotient, remainder}
use sputnikvm.PrimitiveTypes.{U256Ops, u256_mod}
use sputnikvm.Core.Utils.{
  plus, minus, I256, sign_bit_mask, zero_i256, i256_eq, quotient_sign, with_sign, min_value, into,
  div, rem,
}
use sputnikvm.Core.Utils.Signed.{word, Shape, of_zero, of_plus, of_minus, mask_lem, into_minus}

module _ ⦃U : U256Ops⦄ where
  min_value_lem : min_value ≡ record { sign = minus; magnitude = 2 ^ 255 }
  unfolding min_value
  min_value_lem =
      rw (mask_lem (2 ^ 256 - 1))
        (ap (λ m. record { sign = minus; magnitude = m }) (U.add_law (2 ^ 255 - 1) 1 (omega arith)))

  into-with_sign_plus : (d : ℕ) → into (with_sign plus d) ≡ d
  unfolding into with_sign
  into-with_sign_plus d = ground arith

  into-with_sign_minus : (d : ℕ) → d < u256_mod → into (with_sign minus d) ≡ word (neg d)
  into-with_sign_minus zero h = unfold into with_sign in refl
  into-with_sign_minus (suc d) h =
      unfold with_sign in rw (suc-==-zero d, into_minus (suc d) (omega arith) h) (omega arith)

  masked_quotient : (a b : ℕ) → 0 < b → a / b < 2 ^ 255 → U.bitand (U.div a b) sign_bit_mask ≡ a / b
  masked_quotient a b p h = rw (U.div_law a b p, mask_lem (a / b)) (mod-eq_of_lt h)

  masked_remainder : (a b : ℕ) → 0 < b → b ≤ 2 ^ 255 → U.bitand (U.rem a b) sign_bit_mask ≡ a % b
  masked_remainder a b p h =
      rw (U.rem_law a b p, mask_lem (a % b)) (mod-eq_of_lt (omega (arith, mod-lt a p)))

  twice_quotient : (a b : ℕ) → 2 ≤ b → a / b * 2 ≤ a
  twice_quotient a b h = grind (arith, div-add-mod' a b)

  -- The quotient of two magnitudes fits 255 bits, but for the least integer divided by -1 or 1.
  small_quotient :
      (a b : ℕ) → 0 < b → a ≤ 2 ^ 255 → ((a == 2 ^ 255) && (b == 1)) ≡ false → a / b < 2 ^ 255
  small_quotient a b p h ne = elim (dec_le 2 b) [
    | yes two ↦ omega (arith, twice_quotient a b two)
    | no one ↦ let e : b ≡ 1 = omega arith in rw e (ground arith)
  ]

  div_general :
      (v w : I256)
      → i256_eq w zero_i256 ≡ false
      → (i256_eq v (record { sign = minus; magnitude = 2 ^ 255 }) && (w.magnitude == 1)) ≡ false
      → 0 < w.magnitude
      → v.magnitude / w.magnitude < 2 ^ 255
      → div v w ≡ with_sign (quotient_sign v.sign w.sign) (v.magnitude / w.magnitude)
  div_general v w nz nm p h =
      unfold div in rw (nz, min_value_lem, nm, masked_quotient v.magnitude w.magnitude p h)

  into_plus :
      (b d : ℕ)
      → 0 < b
      → d < u256_mod
      → into (with_sign plus d) ≡ (if b == 0 then 0 else word (pos d))
  into_plus b d p h = rw (pos→==_zero b p, into-with_sign_plus d) (omega arith)

  into-neg :
      (b d : ℕ)
      → 0 < b
      → d < u256_mod
      → into (with_sign minus d) ≡ (if b == 0 then 0 else word (neg d))
  into-neg b d p h = rw (pos→==_zero b p, into-with_sign_minus d h) refl

  -- The least integer divided by -1 or by 1.
  div_min :
      (w : I256)
      → i256_eq w zero_i256 ≡ false
      → w.magnitude ≡ 1
      → into (div (record { sign = minus; magnitude = 2 ^ 255 }) w) ≡ 2 ^ 255
  unfolding div
  div_min w nz one = rw (nz, min_value_lem, one) (into_minus (2 ^ 255) (omega arith) (omega arith))

  -- `I256::div` is the quotient of the integers, rounded towards zero and cut to a word; it is 0 for a
  -- divisor that is zero.
  pub div-Shape :
      {a b : ℕ} {v w : I256} {y z : ℤ}
      → Shape a v y
      → Shape b w z
      → into (div v w) ≡ (if b == 0 then 0 else word (quotient y z))
  div-Shape s of_zero = unfold div into in refl
  div-Shape of_zero (of_plus n p h) =
      rw (div_general zero_i256 (record { sign = plus; magnitude = n }) refl refl p (omega arith))
        (unfold quotient_sign in into_plus n (0 / n) p (omega arith))
  div-Shape of_zero (of_minus {a = b} k h e) =
      rw
        (div_general zero_i256 (record { sign = minus; magnitude = suc k }) refl refl (omega arith)
          (omega arith))
        (unfold quotient_sign in into-neg b (0 / suc k) (omega arith) (omega arith))
  div-Shape (of_plus m q g) (of_plus n p h) =
      rw
        (div_general (record { sign = plus; magnitude = m }) (record { sign = plus; magnitude = n })
          refl refl p (omega arith))
        (unfold quotient_sign in into_plus n (m / n) p (omega arith))
  div-Shape (of_plus m q g) (of_minus {a = b} k h e) =
      rw
        (div_general (record { sign = plus; magnitude = m })
          (record { sign = minus; magnitude = suc k }) refl refl (omega arith) (omega arith))
        (unfold quotient_sign in into-neg b (m / suc k) (omega arith) (omega arith))
  div-Shape (of_minus j g d) (of_plus n p h) = elim (Bool-cases ((suc j == 2 ^ 255) && (n == 1))) [
    | inl least ↦
        let e1 : suc j ≡ 2 ^ 255 = ground arith in
        let e2 : n ≡ 1 = ground arith in
        rw (e1, e2) (div_min (record { sign = plus; magnitude = 1 }) refl refl)
    | inr usual ↦
        let fits : suc j / n < 2 ^ 255 = small_quotient (suc j) n p (omega arith) usual in
        rw
          (div_general (record { sign = minus; magnitude = suc j })
            (record { sign = plus; magnitude = n }) refl usual p fits)
          (unfold quotient_sign in into-neg n (suc j / n) p (omega arith))
  ]
  div-Shape (of_minus j g d) (of_minus {a = b} k h e) =
      elim (Bool-cases ((suc j == 2 ^ 255) && (suc k == 1))) [
        | inl least ↦
            let e1 : suc j ≡ 2 ^ 255 = ground arith in
            let e2 : suc k ≡ 1 = ground arith in
            rw (e1, e2, pos→==_zero b (omega arith))
              (div_min (record { sign = minus; magnitude = 1 }) refl refl)
        | inr usual ↦
            let fits : suc j / suc k < 2 ^ 255 =
              small_quotient (suc j) (suc k) (omega arith) (omega arith) usual in
            rw
              (div_general (record { sign = minus; magnitude = suc j })
                (record { sign = minus; magnitude = suc k }) refl usual (omega arith) fits)
              (unfold quotient_sign in into_plus b (suc j / suc k) (omega arith) (omega arith))
      ]

  rem_general :
      (v w : I256)
      → 0 < w.magnitude
      → w.magnitude ≤ 2 ^ 255
      → rem v w ≡ with_sign v.sign (v.magnitude % w.magnitude)
  unfolding rem
  rem_general v w p h = rw (masked_remainder v.magnitude w.magnitude p h)

  rem_zero : (w : I256) → 0 < w.magnitude → w.magnitude ≤ 2 ^ 255 → into (rem zero_i256 w) ≡ 0
  rem_zero w p h = rw (rem_general zero_i256 w p h, zero-mod) (unfold with_sign into in refl)

  -- `I256::rem` is the remainder of that quotient, with the sign of the dividend.
  pub rem-Shape :
      {a b : ℕ} {v w : I256} {y z : ℤ}
      → Shape a v y
      → Shape b w z
      → 0 < b
      → into (rem v w) ≡ word (remainder y z)
  rem-Shape s of_zero pb = absurd (omega arith)
  rem-Shape of_zero (of_plus n p h) pb =
      rw (rem_zero (record { sign = plus; magnitude = n }) p (omega arith), zero-mod) refl
  rem-Shape of_zero (of_minus k h e) pb =
      rw
        (
          rem_zero (record { sign = minus; magnitude = suc k }) (omega arith) (omega arith),
          zero-mod,
        )
        refl
  rem-Shape (of_plus m q g) (of_plus n p h) pb =
      rw
        (
          rem_general (record { sign = plus; magnitude = m })
              (record { sign = plus; magnitude = n }) p (omega arith),
          into-with_sign_plus,
        )
        (omega (arith, mod-lt m p))
  rem-Shape (of_plus m q g) (of_minus k h e) pb =
      rw
        (
          rem_general (record { sign = plus; magnitude = m })
              (record { sign = minus; magnitude = suc k }) (omega arith) (omega arith),
          into-with_sign_plus,
        )
        (omega (arith, mod-lt m (zero-lt-suc k)))
  rem-Shape (of_minus j g d) (of_plus n p h) pb =
      rw
        (rem_general (record { sign = minus; magnitude = suc j })
          (record { sign = plus; magnitude = n }) p (omega arith))
        (into-with_sign_minus (suc j % n) (omega (arith, mod-lt (suc j) p)))
  rem-Shape (of_minus j g d) (of_minus k h e) pb =
      rw
        (rem_general (record { sign = minus; magnitude = suc j })
          (record { sign = minus; magnitude = suc k }) (omega arith) (omega arith))
        (into-with_sign_minus (suc j % suc k) (omega (arith, mod-lt (suc j) (zero-lt-suc k))))
