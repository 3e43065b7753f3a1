-- ===== src/Core/Bitwise/Bytes.antt =====
-- core/src/eval/bitwise.rs: BYTE and its loop over the bits.
use native.Mathlib.Nat.{mod-lt, mod-one, div-div-eq-div-mul}
use native.Mathlib.Numerals.{add-one}
use native.Mathlib.Decide.{dec_lt}
use sputnikvm.Base.{
  ℕ, zero, suc, ◌+◌, ◌-◌, ◌*◌, ◌/◌, ◌%◌, ◌^◌, ◌≤◌, ◌<◌, ◌≡◌, refl, sym, ap, ◌∙◌, ◌⊎◌, inl, inr,
  true, false, ◌&&◌, ltb, if◌then◌else◌, arith, lt→ltb, le→ltb,
}
use sputnikvm.Base.Arith.{pow-add}
use sputnikvm.Base.Bits.{mod-pow_step, two-pow-le, two-pow-pos}
use sputnikvm.PrimitiveTypes.{U256Ops, u256_mod}
use sputnikvm.PrimitiveTypes.Bits.{bit_lem}
use sputnikvm.Core.Bitwise.{byte_loop, byte}

bit_scaled : (b x : ℕ) → b < 2 → b * x ≤ x
bit_scaled b x h = grind arith

active : (i op1 : ℕ) → i < 8 → op1 < 32 → (ltb i 8 && ltb op1 32) ≡ true
active i op1 h k = ground arith

idle : (i op1 : ℕ) → (8 ≤ i) ⊎ (32 ≤ op1) → (ltb i 8 && ltb op1 32) ≡ false
idle i op1 h = ground arith

module _ ⦃U : U256Ops⦄ where
  -- The rounds after the first 8, and those of an index past the word, do nothing.
  byte_loop_past :
      (op1 op2 left i ret : ℕ) → (8 ≤ i) ⊎ (32 ≤ op1) → byte_loop op1 op2 left i ret ≡ ret
  unfolding byte_loop
  byte_loop_past op1 op2 zero i ret h = refl
  byte_loop_past op1 op2 (suc left) i ret h =
      rw (idle i op1 h) (byte_loop_past op1 op2 left (i + 1) ret (omega arith))

  module _ (op1 op2 : ℕ) (inside : op1 < 32) where
    -- The word from the wanted byte on.
    abbrev from_byte : ℕ
    from_byte = op2 / 2 ^ (248 - 8 * op1)

    wanted_bit :
        (i t : ℕ)
        → i < 8
        → t ≡ 248 - 8 * op1 + i
        → U.shift_right (U.bitand op2 (U.shift_left 1 t)) t ≡ from_byte / 2 ^ i % 2
    wanted_bit i t h e =
        bit_lem op2 t (omega arith)
        ∙ ap (λ (x : ℕ). x % 2)
            (ap (λ (x : ℕ). op2 / x) (ap (λ (x : ℕ). 2 ^ x) e ∙ pow-add 2 (248 - 8 * op1) i)
              ∙ sym (div-div-eq-div-mul op2 (2 ^ (248 - 8 * op1)) (2 ^ i)))

    collect :
        (i t : ℕ)
        → i < 8
        → t ≡ 248 - 8 * op1 + i
        → U.overflowing_add
            (from_byte % 2 ^ i)
            (U.shift_left (U.shift_right (U.bitand op2 (U.shift_left 1 t)) t) i)
          ≡ from_byte % 2 ^ suc i
    collect i t h e =
        ap (λ (x : ℕ). U.overflowing_add (from_byte % 2 ^ i) (U.shift_left x i))
          (wanted_bit i t h e)
        ∙ U.overflowing_add_law (from_byte % 2 ^ i) (U.shift_left (from_byte / 2 ^ i % 2) i)
        ∙ ap (λ (x : ℕ). (from_byte % 2 ^ i + x) % u256_mod)
            (U.shift_left_law (from_byte / 2 ^ i % 2) i (omega arith))
        ∙ omega (
          arith,
          mod-pow_step from_byte i,
          mod-lt from_byte (two-pow-pos i),
          bit_scaled (from_byte / 2 ^ i % 2) (2 ^ i) (omega arith),
          two-pow-le i 7 (omega arith),
        )

    byte_round :
        (left i : ℕ)
        → i < 8
        → byte_loop op1 op2 (suc left) i (from_byte % 2 ^ i)
          ≡ byte_loop op1 op2 left (i + 1) (from_byte % 2 ^ (i + 1))
    unfolding byte_loop
    byte_round left i h = rw (
      active i op1 h inside,
      U.as_usize_law op1 (omega arith),
      collect i (255 - (7 - i + 8 * op1)) h (omega arith),
      add-one i,
    )

    byte_loop_lem :
        (left i : ℕ)
        → i ≤ 8
        → 8 ≤ i + left
        → byte_loop op1 op2 left i (from_byte % 2 ^ i) ≡ from_byte % 256
    byte_loop_lem zero i h enough = unfold byte_loop in (let e : i ≡ 8 = omega arith in rw e refl)
    byte_loop_lem (suc left) i h enough = elim (dec_lt i 8) [
      | no past ↦
          byte_loop_past op1 op2 (suc left) i (from_byte % 2 ^ i) (inl (omega arith))
          ∙ (let e : i ≡ 8 = omega arith in rw e refl)
      | yes more ↦ byte_round left i more ∙ byte_loop_lem left (i + 1) (omega arith) (omega arith)
    ]

  -- `byte` is byte `op1` of the word, counted from the most significant one, and 0 past the word.
  pub byte_lem :
      (op1 op2 : ℕ)
      → op2 < u256_mod
      → byte op1 op2 ≡ (if ltb op1 32 then op2 / 2 ^ (248 - 8 * op1) % 256 else 0)
  unfolding byte
  byte_lem op1 op2 h = elim (dec_lt op1 32) [
    | yes inside ↦ rw (lt→ltb op1 32 inside) (
        ap (byte_loop op1 op2 256 0) (sym (mod-one (op2 / 2 ^ (248 - 8 * op1))))
        ∙ byte_loop_lem op1 op2 inside 256 0 (omega arith) (omega arith))
    | no past ↦
        rw (le→ltb op1 32 (omega arith)) (byte_loop_past op1 op2 256 0 0 (inr (omega arith)))
  ]
