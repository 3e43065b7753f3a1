-- ===== src/Core/Memory/Resize.antt =====
-- What the two resizing operations do on every branch: the effective length grows to the end of the
-- region, rounded up to a whole number of words of 32 bytes.
use sputnikvm.Base.{
  ℕ, zero, suc, ◌+◌, ◌*◌, ◌/◌, ◌≤◌, ◌<◌, ◌≡◌, ok, err, ltb, ◌==◌, if◌then◌else◌, max, arith,
}
use sputnikvm.PrimitiveTypes.{U256Ops, u256_mod}
use sputnikvm.Core.Error.{invalid_range}
use sputnikvm.Core.Memory.{Memory, round_end, cover, resize_end, resize_offset}

-- The least multiple of 32 that is not below `n`.
abbrev pub round_up : ℕ → ℕ
round_up n = (n + 31) / 32 * 32

-- The memory after its effective length has grown to `end`.
abbrev pub grown_to : Memory → ℕ → Memory
grown_to m end = record m { effective_len = max m.effective_len end }

module _ ⦃U : U256Ops⦄ where
  round_end_lem :
      (fuel end : ℕ)
      → end < u256_mod
      → round_up end ≤ end + fuel
      → round_end fuel end
        ≡ (if ltb (round_up end) u256_mod then ok (round_up end) else err invalid_range)
  unfolding round_end
  round_end_lem zero end h enough = ground arith
  round_end_lem (suc fuel) end h enough =
      rw (U.rem_law end 32 (omega arith), U.checked_add_law end 1)
        (ground (arith, round_end_lem fuel (end + 1)))

  -- `resize_offset` does nothing for an empty region. It grows the effective length to the end of the
  -- region, rounded up, where that is a `U256`, and fails with `invalid_range` and changes nothing
  -- where it is not.
  pub resize_offset_lem :
      (m : Memory) (offset size : ℕ)
      → resize_offset m offset size ≡ (
          if size == 0
          then (ok tt, m)
          else if ltb (round_up (offset + size)) u256_mod
          then (ok tt, grown_to m (round_up (offset + size)))
          else (err invalid_range, m))
  unfolding resize_offset resize_end cover
  resize_offset_lem m offset size =
      rw (U.checked_add_law offset size) (ground (arith, round_end_lem 32 (offset + size)))
