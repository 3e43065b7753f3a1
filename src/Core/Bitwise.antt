-- ===== src/Core/Bitwise.antt =====
-- core/src/eval/bitwise.rs: comparisons, bits and shifts on words.
pub mod Order
pub mod Shifts
pub mod Bytes
use Prim.Native.Nat.{Ordering}
use sputnikvm.Base.{
  ℕ, zero, suc, ◌+◌, ◌-◌, ◌*◌, Bool, true, false, ◌&&◌, ◌||◌, ltb, leb, ◌==◌, if◌then◌else◌,
}
use sputnikvm.PrimitiveTypes.{U256Ops}
use sputnikvm.Core.Utils
use sputnikvm.Core.Utils.{Sign, plus, minus, no_sign, I256, zero_i256, i256_eq, cmp}

abbrev is_lt : Ordering → Bool
is_lt Ordering.lt = true
is_lt _ = false

abbrev is_gt : Ordering → Bool
is_gt Ordering.gt = true
is_gt _ = false

pub iszero : ℕ → ℕ
iszero op1 = if op1 == 0 then 1 else 0

module _ ⦃U : U256Ops⦄ where
  pub slt : ℕ → ℕ → ℕ
  slt op1 op2 = if is_lt (cmp (Utils.from op1) (Utils.from op2)) then 1 else 0

  pub sgt : ℕ → ℕ → ℕ
  sgt op1 op2 = if is_gt (cmp (Utils.from op1) (Utils.from op2)) then 1 else 0

  pub not : ℕ → ℕ
  not op1 = U.complement op1

  -- The loop of `byte` at bit `i`, with `left` rounds left: only the first 8 rounds do anything.
  byte_loop : ℕ → ℕ → ℕ → ℕ → ℕ → ℕ
  byte_loop op1 op2 zero i ret = ret
  byte_loop op1 op2 (suc left) i ret =
      let t = 255 - (7 - i + 8 * U.as_usize op1) in
      let value = U.shift_right (U.bitand op2 (U.shift_left 1 t)) t in
      byte_loop op1 op2 left (i + 1)
        (if ltb i 8 && ltb op1 32 then U.overflowing_add ret (U.shift_left value i) else ret)

  pub byte : ℕ → ℕ → ℕ
  byte op1 op2 = byte_loop op1 op2 256 0 0

  pub shl : ℕ → ℕ → ℕ
  shl shift value = if value == 0 || leb 256 shift then 0 else U.shift_left value (U.as_u64 shift)

  pub shr : ℕ → ℕ → ℕ
  shr shift value = if value == 0 || leb 256 shift then 0 else U.shift_right value (U.as_u64 shift)

  -- What a shift by 256 or more, or of zero, leaves.
  shifted_out : Sign → ℕ
  shifted_out plus = 0
  shifted_out no_sign = 0
  shifted_out minus = Utils.into (record { sign = minus; magnitude = 1 })

  shifted : Sign → ℕ → ℕ → ℕ
  shifted plus magnitude shift = U.shift_right magnitude shift
  shifted no_sign magnitude shift = U.shift_right magnitude shift
  shifted minus magnitude shift = Utils.into (record {
    sign = minus;
    magnitude = U.overflowing_add (U.shift_right (U.overflowing_sub magnitude 1) shift) 1;
  })

  pub sar : ℕ → ℕ → ℕ
  unfolding shifted_out shifted
  sar shift value =
      let v = Utils.from value in
      if i256_eq v zero_i256 || leb 256 shift
      then shifted_out v.sign
      else shifted v.sign v.magnitude (U.as_u64 shift)
