-- ===== src/Gasometer/Costs/Words.antt =====
-- The costs that grow with the number of words that are copied or hashed.
use sputnikvm.Base.{
  ℕ, ◌+◌, ◌*◌, ◌/◌, ◌^◌, ◌<◌, ◌≡◌, ok, err, ok_or, and_then, ltb, ◌==◌, if◌then◌else◌, arith,
}
use sputnikvm.Base.Result.{Result}
use sputnikvm.PrimitiveTypes.{U256Ops, u256_mod}
use sputnikvm.Core.Error.{ExitError, out_of_gas}
use sputnikvm.Runtime.Config.{Config}
use sputnikvm.Gasometer.Costs.{
  to_gas, words, copy_cost, sha3_cost, verylowcopy_cost, extcodecopy_cost, create2_cost,
}

-- The words of 32 bytes that `len` bytes fill or begin.
abbrev pub word_count : ℕ → ℕ
word_count len = (len + 31) / 32

-- The gas, where it fits 64 bits.
abbrev pub priced : ℕ → Result ExitError ℕ
priced gas = if ltb gas (2 ^ 64) then ok gas else err out_of_gas

module _ ⦃U : U256Ops⦄ where
  to_gas_lem : (gas : ℕ) → to_gas gas ≡ priced gas
  unfolding to_gas
  to_gas_lem gas = ground (arith, U.as_u64_law gas)

  words_lem : (len : ℕ) → len < u256_mod → words len ≡ word_count len
  unfolding words
  words_lem len h =
      rw (U.rem_law len 32 (omega arith), U.div_law len 32 (omega arith))
        (ground (arith, U.add_law (len / 32) 1))

  summed_lem :
      (base price n : ℕ)
      → and_then
          (ok_or (U.checked_mul price n) out_of_gas)
          (λ per_word. and_then (ok_or (U.checked_add base per_word) out_of_gas) to_gas)
        ≡ priced (base + price * n)
  unfolding to_gas
  summed_lem base price n =
      rw (U.checked_mul_law price n)
        (ground (arith, U.checked_add_law base (price * n), U.as_u64_law (base + price * n)))

  rounded_lem :
      (len : ℕ)
      → len < u256_mod
      → U.add (U.div len 32) (if U.rem len 32 == 0 then 0 else 1) ≡ word_count len
  rounded_lem len h =
      rw (U.rem_law len 32 (omega arith), U.div_law len 32 (omega arith))
        (ground (arith, U.add_law (len / 32) 1, U.add_law (len / 32) 0))

  copy_cost_lem :
      (base price len : ℕ)
      → len < u256_mod
      → copy_cost base price len ≡ priced (base + price * word_count len)
  unfolding copy_cost
  copy_cost_lem base price len h = rw (words_lem len h) (summed_lem base price (word_count len))

  -- Hashing `len` bytes costs 30, and 6 for each of its words of 32 bytes,
  -- where that fits 64 bits; otherwise the gas runs out. `len` is the value of a U256.
  pub sha3_cost_lem : (len : ℕ) → len < u256_mod → sha3_cost len ≡ priced (30 + 6 * word_count len)
  unfolding sha3_cost
  sha3_cost_lem len h = copy_cost_lem 30 6 len h

  -- Copying `len` bytes costs 3, and 3 for each of its words of 32 bytes,
  -- where that fits 64 bits; otherwise the gas runs out. `len` is the value of a U256.
  pub verylowcopy_cost_lem :
      (len : ℕ) → len < u256_mod → verylowcopy_cost len ≡ priced (3 + 3 * word_count len)
  unfolding verylowcopy_cost
  verylowcopy_cost_lem len h = copy_cost_lem 3 3 len h

  -- Copying `len` bytes of external code costs the configured base, and 3 for each of its words,
  -- where that fits 64 bits; otherwise the gas runs out. `len` is the value of a U256.
  pub extcodecopy_cost_lem :
      (len : ℕ) (config : Config)
      → len < u256_mod
      → extcodecopy_cost len config ≡ priced (config.gas_ext_code + 3 * word_count len)
  unfolding extcodecopy_cost
  extcodecopy_cost_lem len config h = copy_cost_lem config.gas_ext_code 3 len h

  -- CREATE2 with `len` bytes of code costs 32000, and 6 for each of its words of 32 bytes,
  -- where that fits 64 bits; otherwise the gas runs out. `len` is the value of a U256.
  pub create2_cost_lem :
      (len : ℕ) → len < u256_mod → create2_cost len ≡ priced (32000 + 6 * word_count len)
  unfolding create2_cost
  create2_cost_lem len h = rw (rounded_lem len h) (summed_lem 32000 6 (word_count len))

  -- The costs by words of 32 bytes, for a length that is the value of a U256: hashing costs 30 and 6 for each
  -- word; copying 3 and 3 for each; copying external code the configured base and 3 for each; CREATE2
  -- 32000 and 6 for each. Where the cost does not fit 64 bits, the gas runs out.
  pub word_costs_lem :
      (len : ℕ) (config : Config)
      → len < u256_mod
      → (sha3_cost len ≡ priced (30 + 6 * word_count len))
        × (verylowcopy_cost len ≡ priced (3 + 3 * word_count len))
        × (extcodecopy_cost len config ≡ priced (config.gas_ext_code + 3 * word_count len))
        × (create2_cost len ≡ priced (32000 + 6 * word_count len))
  word_costs_lem len config h = (
    sha3_cost_lem len h,
    verylowcopy_cost_lem len h,
    extcodecopy_cost_lem len config h,
    create2_cost_lem len h,
  )
