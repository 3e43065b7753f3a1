-- ===== src/Core/Memory.antt =====
-- core/src/memory.rs: the byte-addressed memory of a machine.
pub mod Resize
pub mod Access
pub mod Write
pub mod Bounds
use sputnikvm.Base.{
  ℕ, zero, suc, ◌+◌, ◌-◌, ◌%◌, Bool, ◌&&◌, Option, none, some, List, [], ◌++◌, ok, err, ltb, leb,
  ◌==◌, if◌then◌else◌, length, get_or, get_elem?, set as list_set, take, drop, replicate, min, max,
}
use sputnikvm.Base.Result.{Result}
use sputnikvm.PrimitiveTypes.{U256Ops, u64_mod, usize_max}
use sputnikvm.Core.Error.{ExitError, invalid_range, ExitFatal, not_supported}

pub record Memory : Type 0 where
  pub bytes : List ℕ
  pub effective_len : ℕ
  pub limit : ℕ

pub new : ℕ → Memory
new limit = record { bytes = []; effective_len = 0; limit = limit }

pub len : Memory → ℕ
len m = length m.bytes

pub is_empty : Memory → Bool
is_empty m = len m == 0

-- `Vec::resize` with zeros
unfoldable pub resize : ℕ → List ℕ → List ℕ
resize n xs = take n xs ++ replicate (n - length xs) 0

-- The loop of `get` at index `index`, with `left` rounds left; it stops at the end of the bytes.
pub get_loop : List ℕ → ℕ → ℕ → ℕ → List ℕ → List ℕ
get_loop bytes offset zero index ret = ret
get_loop bytes offset (suc left) index ret =
    let position = (offset + index) % u64_mod in
    let rest =
      get_loop bytes offset left (index + 1) (list_set ret index (get_or bytes position 0)) in
    if leb (length bytes) position then ret else rest

pub get : Memory → ℕ → ℕ → List ℕ
get m offset size = get_loop m.bytes offset size 0 (replicate size 0)

-- `self.data[i] = value[j]`, from what is read; an index out of range panics, which is none.
pub store : List ℕ → ℕ → Option ℕ → Option (List ℕ)
store bytes i none = none
store bytes i (some byte) = if ltb i (length bytes) then some (list_set bytes i byte) else none

-- The loop of `set` at index `index`, with `left` rounds left.
pub set_loop : ℕ → List ℕ → ℕ → ℕ → List ℕ → Option (List ℕ)
unfolding store
set_loop offset value zero index bytes = some bytes
set_loop offset value (suc left) index bytes =
    let byte =
      if ltb (offset + index) (length bytes) && ltb index (length value)
      then get_elem? value index
      else some 0 in
    elim (store bytes (offset + index) byte) [
      | none ↦ none
      | some stored ↦ set_loop offset value left (index + 1) stored
    ]

-- What a `Memory` is left with. There is no answer for a panic of the loop, which is an error here; `write`
-- grows the bytes first, so that the loop stays in range.
finish : Memory → Option (List ℕ) → Result ExitFatal (Unit {0}) × Memory
finish m none = (err not_supported, m)
finish m (some bytes) = (ok tt, record m { bytes = bytes })

-- `set` from where the target size is known.
pub write : Memory → ℕ → List ℕ → ℕ → Result ExitFatal (Unit {0}) × Memory
unfolding finish
write m offset value target_size =
    if ltb usize_max (offset + target_size)
    then (err not_supported, m)
    else if ltb m.limit (offset + target_size)
    then (err not_supported, m)
    else let grown =
        if ltb (length m.bytes) (offset + target_size)
        then resize (offset + target_size) m.bytes
        else m.bytes in
      finish m (set_loop offset value target_size 0 grown)

pub set : Memory → ℕ → List ℕ → Option ℕ → Result ExitFatal (Unit {0}) × Memory
set m offset value (some target_size) =
    if target_size == 0 then (ok tt, m) else write m offset value target_size
set m offset value none =
    if length value == 0 then (ok tt, m) else write m offset value (length value)

module _ ⦃U : U256Ops⦄ where
  -- The loop of `resize_end`. From any end it meets a multiple of 32, or the end of the range, within
  -- 32 rounds.
  pub round_end : ℕ → ℕ → Result ExitError ℕ
  round_end zero end = ok end
  round_end (suc fuel) end =
      let next : Result ExitError ℕ = elim (U.checked_add end 1) [
        | none ↦ err invalid_range
        | some e ↦ round_end fuel e
      ] in
      if U.rem end 32 == 0 then ok end else next

  cover : Memory → Result ExitError ℕ → Result ExitError (Unit {0}) × Memory
  cover m (err e) = (err e, m)
  cover m (ok end) = (ok tt, record m { effective_len = max m.effective_len end })

  pub resize_end : Memory → ℕ → Result ExitError (Unit {0}) × Memory
  unfolding cover
  resize_end m end = cover m (round_end 32 end)

  pub resize_offset : Memory → ℕ → ℕ → Result ExitError (Unit {0}) × Memory
  resize_offset m offset size =
      let covered : Result ExitError (Unit {0}) × Memory = elim (U.checked_add offset size) [
        | none ↦ (err invalid_range, m)
        | some end ↦ resize_end m end
      ] in
      if size == 0 then (ok tt, m) else covered

  -- The part of `source` that `copy_large` copies: none of it where the range starts past its end or
  -- does not fit a `usize`.
  pub source_range : ℕ → ℕ → List ℕ → List ℕ
  source_range data_offset size source = elim (U.checked_add data_offset size) [
    | none ↦ []
    | some end ↦
        if ltb usize_max end
        then []
        else let from = U.as_usize data_offset in
          let to = min (U.as_usize end) (length source) in
          if ltb (length source) from then [] else take (to - from) (drop from source)
  ]

  pub copy_large : Memory → ℕ → ℕ → ℕ → List ℕ → Result ExitFatal (Unit {0}) × Memory
  copy_large m memory_offset data_offset size source =
      if ltb usize_max memory_offset
      then (err not_supported, m)
      else if ltb usize_max size
      then (err not_supported, m)
      else set m (U.as_usize memory_offset) (source_range data_offset size source)
          (some (U.as_usize size))
