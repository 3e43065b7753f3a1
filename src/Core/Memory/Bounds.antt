-- ===== src/Core/Memory/Bounds.antt =====
-- core/src/memory.rs: the size of the memory, its effective length, and the limit.
use sputnikvm.Base.{
  ℕ, zero, suc, ◌+◌, ◌%◌, ◌≤◌, ◌<◌, ◌≡◌, refl, List, some, length, arith, ltb, ◌==◌, Bool-cases,
  inl, inr, ltb→lt,
}
use sputnikvm.PrimitiveTypes.{U256Ops, u256_mod, usize_max}
use sputnikvm.Core.Memory.{Memory, new, set, copy_large, source_range, resize_offset}
use sputnikvm.Core.Memory.Resize.{round_up, grown_to, resize_offset_lem}
use sputnikvm.Core.Memory.Write.{IsWritten, set_lem}

-- A memory of the given limit that is no longer than that, with an effective length in whole words.
pub record Fits (limit : ℕ) (m : Memory) : Type 0 where
  pub same_limit : m.limit ≡ limit
  pub bounded : length m.bytes ≤ m.limit
  pub whole_words : m.effective_len % 32 ≡ 0
  pub in_range : m.effective_len < u256_mod

module _ {limit : ℕ} where
  pub new-Fits : Fits limit (new limit)
  unfolding new
  new-Fits = record {
    same_limit = refl;
    bounded = omega arith;
    whole_words = refl;
    in_range = omega arith;
  }

  written-Fits :
      (m m' : Memory) (offset size : ℕ) (value : List ℕ)
      → offset + size ≤ m.limit
      → IsWritten m m' offset size value
      → Fits limit m
      → Fits limit m'
  written-Fits m m' offset size value fits w f = omega arith

  pub set-Fits :
      (m : Memory) (offset size : ℕ) (value : List ℕ)
      → limit ≤ usize_max
      → Fits limit m
      → Fits limit (set m offset value (some size)).1
  set-Fits m offset zero value small f = unfold set in f
  set-Fits m offset (suc n) value small f =
      elim (set_lem m offset (suc n) value (omega arith) (omega (arith, f.same_limit))) [
        | inl (fits, done, w) ↦
            written-Fits m (set m offset value (some (suc n))).1 offset (suc n) value fits w f
        | inr (past, same) ↦ rw same f
      ]

  grown_to-Fits :
      (m : Memory) (end : ℕ)
      → end % 32 ≡ 0
      → end < u256_mod
      → Fits limit m
      → Fits limit (grown_to m end)
  grown_to-Fits m end words small f = record {
    same_limit = f.same_limit;
    bounded = f.bounded;
    whole_words = omega arith;
    in_range = omega arith;
  }

  module _ ⦃U : U256Ops⦄ where
    pub copy_large-Fits :
        (m : Memory) (memory_offset data_offset size : ℕ) (source : List ℕ)
        → limit ≤ usize_max
        → Fits limit m
        → Fits limit (copy_large m memory_offset data_offset size source).1
    unfolding copy_large
    copy_large-Fits m memory_offset data_offset size source small f =
        elim (Bool-cases (ltb usize_max memory_offset)) [
          | inl big ↦ rw big f
          | inr fits ↦ rw fits (elim (Bool-cases (ltb usize_max size)) [
            | inl big ↦ rw big f
            | inr fits' ↦ rw fits' (
                set-Fits m (U.as_usize memory_offset) (U.as_usize size)
                  (source_range data_offset size source) small f)
          ])
        ]

    pub resize_offset-Fits :
        (m : Memory) (offset size : ℕ) → Fits limit m → Fits limit (resize_offset m offset size).1
    resize_offset-Fits m offset size f = rw resize_offset_lem (elim (Bool-cases (size == 0)) [
      | inl empty ↦ rw empty f
      | inr some_bytes ↦
          rw some_bytes (elim (Bool-cases (ltb (round_up (offset + size)) u256_mod)) [
            | inl fits ↦
                rw fits
                  (grown_to-Fits m (round_up (offset + size)) (omega arith) (ltb→lt _ _ fits) f)
            | inr past ↦ rw past f
          ])
    ])
