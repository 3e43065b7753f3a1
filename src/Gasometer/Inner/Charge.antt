-- ===== src/Gasometer/Inner/Charge.antt =====
-- What a memory region costs.
use sputnikvm.Base.{
  ℕ, ◌+◌, ◌*◌, ◌/◌, ◌%◌, ◌^◌, ◌≤◌, ◌<◌, ◌≡◌, refl, sym, ◌∙◌, max, ok, err, ltb, ◌==◌, if◌then◌else◌,
  arith,
}
use sputnikvm.PrimitiveTypes.{U256Ops}
use sputnikvm.Core.Error.{out_of_gas}
use sputnikvm.Gasometer.Memory.{memory_gas_lem, square_below}
use sputnikvm.Gasometer.Cost.{MemoryCost}
use sputnikvm.Gasometer.Inner.{Inner, charge, charge_end}

-- The words that a region reaches to.
abbrev pub region_words : MemoryCost → ℕ
region_words c = (c.offset + c.len + 31) / 32

module _ ⦃U : U256Ops⦄ where
  rounded : (n : ℕ) → (if n % 32 == 0 then n / 32 else n / 32 + 1) ≡ (n + 31) / 32
  rounded n = ground arith

  charge_end_lem :
      (inner : Inner) (end w : ℕ)
      → (end + 31) / 32 ≡ w
      → charge_end inner end ≡ (
          if ltb w (2 ^ 32)
          then ok (max inner.memory_gas (3 * w + w * w / 512))
          else err out_of_gas)
  unfolding charge_end
  charge_end_lem inner end w e = rw (rounded end, e, memory_gas_lem w) (ground arith)

  -- An empty region costs what was paid before. Another one costs 3w + w²/512 for the w words that it
  -- reaches to, or what was paid before if that is more; from 2³² words on the gas runs out.
  pub charge_lem :
      (inner : Inner) (memory : MemoryCost)
      → charge inner memory ≡ (
          if memory.len == 0
          then ok inner.memory_gas
          else if ltb (region_words memory) (2 ^ 32)
          then ok (
              max inner.memory_gas
                (3 * region_words memory + region_words memory * region_words memory / 512))
          else err out_of_gas)
  unfolding charge
  charge_lem inner memory =
      let end = memory.offset + memory.len in
      rw (U.checked_add_law memory.offset memory.len)
        (ground (arith, U.as_usize_law end, charge_end_lem inner end (region_words memory) refl))

  words_gas : (w : ℕ) → w < 2 ^ 32 → 3 * w + w * w / 512 < 2 ^ 62
  words_gas w h = omega (arith, square_below w h)

  -- A region never costs less than what was paid before, and its gas stays far below 64 bits.
  pub charge_bound :
      (inner : Inner) (memory : MemoryCost) (mg : ℕ)
      → inner.memory_gas < 2 ^ 62
      → charge inner memory ≡ ok mg
      → (inner.memory_gas ≤ mg) × (mg < 2 ^ 62)
  charge_bound inner memory mg h e =
      let same = sym (charge_lem inner memory) ∙ e in
      ground (arith, words_gas (region_words memory))
