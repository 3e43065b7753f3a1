-- ===== src/Core/Bitwise/Shifts.antt =====
-- SHL, SHR and SAR for every shift, also those by 256 and more.
use native.Mathlib.Nat.{mul-mod_left, sub-add_cancel, mul_assoc, zero-div, zero-mul}
use native.Mathlib.Decide.{dec_lt}
use sputnikvm.Base.{
  ℕ, zero, suc, ◌+◌, ◌-◌, ◌*◌, ◌/◌, ◌%◌, ◌^◌, ◌≤◌, ◌<◌, ◌≡◌, refl, sym, ap, ◌∙◌, true, false, ◌||◌,
  leb, if◌then◌else◌, arith, suc-==-zero,
}
use sputnikvm.Base.Int.{ℤ, floor_div}
use sputnikvm.Base.Arith.{pow-add}
use sputnikvm.Base.Bits.{two-pow-le}
use sputnikvm.PrimitiveTypes.{U256Ops, u256_mod}
use sputnikvm.Core.Utils.{I256, i256_eq, zero_i256}
use sputnikvm.Core.Utils.Signed.{
  signed, word, Shape, of_zero, of_plus, of_minus, from-Shape, into_minus,
}
use sputnikvm.Core.Bitwise.{shl, shr, sar, shifted_out, shifted}

leb_of_lt : (s : ℕ) → s < 256 → leb 256 s ≡ false
leb_of_lt s h = ground arith

leb_of_le : (s : ℕ) → 256 ≤ s → leb 256 s ≡ true
leb_of_le s h = ground arith

-- Shifting by 256 or more leaves nothing of a word.
div_past : (a s : ℕ) → a < u256_mod → 256 ≤ s → a / 2 ^ s ≡ 0
div_past a s ha h = grind (arith, two-pow-le 256 s h)

mul_past : (a s : ℕ) → 256 ≤ s → (a * 2 ^ s) % u256_mod ≡ 0
mul_past a s h =
    ap (λ (t : ℕ). a * t % u256_mod)
      (ap (λ (t : ℕ). 2 ^ t) (sym (sub-add_cancel h)) ∙ pow-add 2 (s - 256) 256)
    ∙ ap (λ (t : ℕ). t % u256_mod) (sym (mul_assoc a (2 ^ (s - 256)) u256_mod))
    ∙ mul-mod_left (a * 2 ^ (s - 256)) u256_mod

module _ ⦃U : U256Ops⦄ where
  -- `shl` multiplies by a power of two and cuts to a word.
  pub shl_lem : (shift value : ℕ) → shl shift value ≡ (value * 2 ^ shift) % u256_mod
  unfolding shl
  shl_lem shift zero = sym (ap (λ (t : ℕ). t % u256_mod) (zero-mul (2 ^ shift)))
  shl_lem shift (suc v) = elim (dec_lt shift 256) [
    | yes h ↦
        rw (suc-==-zero v, leb_of_lt shift h, U.as_u64_law shift (omega arith))
          (U.shift_left_law (suc v) shift h)
    | no h ↦
        rw (suc-==-zero v, leb_of_le shift (omega arith))
          (sym (mul_past (suc v) shift (omega arith)))
  ]

  -- `shr` divides a word by a power of two and rounds down.
  pub shr_lem : (shift value : ℕ) → value < u256_mod → shr shift value ≡ value / 2 ^ shift
  unfolding shr
  shr_lem shift zero hv = sym (zero-div (2 ^ shift))
  shr_lem shift (suc v) hv = elim (dec_lt shift 256) [
    | yes h ↦
        rw (suc-==-zero v, leb_of_lt shift h, U.as_u64_law shift (omega arith))
          (U.shift_right_law (suc v) shift h)
    | no h ↦
        rw (suc-==-zero v, leb_of_le shift (omega arith))
          (sym (div_past (suc v) shift hv (omega arith)))
  ]

  -- The result of `sar` by the three cases of its operand.
  sar_result : I256 → ℕ → ℕ
  sar_result v shift =
      if i256_eq v zero_i256 || leb 256 shift
      then shifted_out v.sign
      else shifted v.sign v.magnitude (U.as_u64 shift)

  negative_shift : (k s : ℕ) → k < 2 ^ 255 → U.overflowing_add (k / 2 ^ s) 1 ≡ suc (k / 2 ^ s)
  negative_shift k s h = U.overflowing_add_law (k / 2 ^ s) 1 ∙ omega arith

  sar-Shape :
      {a : ℕ} {v : I256} {z : ℤ} (shift : ℕ)
      → Shape a v z
      → a < u256_mod
      → sar_result v shift ≡ word (floor_div z (2 ^ shift))
  unfolding sar_result shifted_out shifted
  sar-Shape shift of_zero ha = sym (ap (λ (t : ℕ). t % u256_mod) (zero-div (2 ^ shift)))
  sar-Shape shift (of_plus n p h) ha = elim (dec_lt shift 256) [
    | yes below ↦
        rw
          (leb_of_lt shift below, U.as_u64_law shift (omega arith), U.shift_right_law n shift below)
          (omega arith)
    | no past ↦ rw (leb_of_le shift (omega arith), div_past n shift ha (omega arith)) refl
  ]
  sar-Shape shift (of_minus k h e) ha = elim (dec_lt shift 256) [
    | yes below ↦
        let back : (suc k + u256_mod - 1) % u256_mod ≡ k = omega arith in
        rw
          (
            leb_of_lt shift below,
            U.as_u64_law shift (omega arith),
            U.overflowing_sub_law (suc k) 1,
            back,
            U.shift_right_law k shift below,
            negative_shift k shift h,
          )
          (into_minus (suc (k / 2 ^ shift)) (omega arith) (omega arith) ∙ omega arith)
    | no past ↦
        rw (leb_of_le shift (omega arith), div_past k shift (omega arith) (omega arith))
          (into_minus 1 (omega arith) (omega arith))
  ]

  -- `sar` divides the integer that the word stands for by a power of two, rounds down, and gives the
  -- word of the result: 0 or -1 for a shift by 256 or more.
  pub sar_lem :
      (shift value : ℕ)
      → value < u256_mod
      → sar shift value ≡ word (floor_div (signed value) (2 ^ shift))
  unfolding sar sar_result
  sar_lem shift value h = sar-Shape shift (from-Shape value h) h

  -- For every shift and a value that is a word: `shl` multiplies by a power of two and cuts to a word; `shr`
  -- divides by it and rounds down; `sar` divides the integer that the word stands for, rounds down, and
  -- gives the word of the result.
  pub shifts_lem :
      (shift value : ℕ)
      → value < u256_mod
      → (shl shift value ≡ (value * 2 ^ shift) % u256_mod)
        × (shr shift value ≡ value / 2 ^ shift)
        × (sar shift value ≡ word (floor_div (signed value) (2 ^ shift)))
  shifts_lem shift value h = (shl_lem shift value, shr_lem shift value h, sar_lem shift value h)
