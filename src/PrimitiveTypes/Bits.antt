-- ===== src/PrimitiveTypes/Bits.antt =====
-- How the repository reads one bit of a word: a mask of one bit, and a shift back.
use native.Mathlib.Nat.{mod-eq_of_lt, mul-div_left}
use sputnikvm.Base.{ℕ, ◌/◌, ◌%◌, ◌^◌, ◌<◌, ◌≡◌, ◌∙◌, ap, arith}
use sputnikvm.Base.Bits.{bit_and_single, two-pow-le, two-pow-pos}
use sputnikvm.PrimitiveTypes.{U256Ops, u256_mod}

module _ ⦃U : U256Ops⦄ where
  single_bit : (t : ℕ) → t < 256 → U.shift_left 1 t ≡ 2 ^ t
  single_bit t h =
      U.shift_left_law 1 t h
      ∙ ap (λ (x : ℕ). x % u256_mod) (omega arith)
      ∙ mod-eq_of_lt (omega (arith, two-pow-le t 255))

  pub bit_lem :
      (a t : ℕ) → t < 256 → U.shift_right (U.bitand a (U.shift_left 1 t)) t ≡ a / 2 ^ t % 2
  bit_lem a t h =
      U.shift_right_law (U.bitand a (U.shift_left 1 t)) t h
      ∙ ap (λ (x : ℕ). x / 2 ^ t)
          (ap (λ (x : ℕ). U.bitand a x) (single_bit t h)
            ∙ U.bitand_law a (2 ^ t)
            ∙ bit_and_single t a)
      ∙ mul-div_left (a / 2 ^ t % 2) (two-pow-pos t)
