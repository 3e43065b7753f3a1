-- ===== src/Core/Arithmetic.antt =====
-- core/src/eval/arithmetic.rs: the arithmetic of the EVM on words.
pub mod Signed
pub mod Modular
pub mod Power
use sputnikvm.Base.{ℕ, zero, suc, ◌+◌, ◌-◌, ◌*◌, ltb, leb, ◌==◌, if◌then◌else◌}
use sputnikvm.PrimitiveTypes.{U256Ops}
use sputnikvm.Core.Utils
use sputnikvm.Core.Utils.{I256}

module _ ⦃U : U256Ops⦄ where
  pub div : ℕ → ℕ → ℕ
  div op1 op2 = if op2 == 0 then 0 else U.div op1 op2

  pub sdiv : ℕ → ℕ → ℕ
  sdiv op1 op2 = Utils.into (Utils.div (Utils.from op1) (Utils.from op2))

  pub rem : ℕ → ℕ → ℕ
  rem op1 op2 = if op2 == 0 then 0 else U.rem op1 op2

  pub srem : ℕ → ℕ → ℕ
  srem op1 op2 = if op2 == 0 then 0 else Utils.into (Utils.rem (Utils.from op1) (Utils.from op2))

  pub addmod : ℕ → ℕ → ℕ → ℕ
  addmod op1 op2 op3 = if op3 == 0 then 0 else U.expect_u256 (U.rem_u512 (U.add_u512 op1 op2) op3)

  pub mulmod : ℕ → ℕ → ℕ → ℕ
  mulmod op1 op2 op3 = if op3 == 0 then 0 else U.expect_u256 (U.rem_u512 (U.mul_u512 op1 op2) op3)

  -- The loop of `exp`. It halves `op2` in each round, so that 256 rounds are enough for a word.
  pub exp_loop : ℕ → ℕ → ℕ → ℕ → ℕ
  exp_loop zero op1 op2 r = r
  exp_loop (suc fuel) op1 op2 r =
      let rest =
        exp_loop fuel (U.overflowing_mul op1 op1) (U.shift_right op2 1)
          (if U.bitand op2 1 == 0 then r else U.overflowing_mul r op1) in
      if op2 == 0 then r else rest

  pub exp : ℕ → ℕ → ℕ
  exp op1 op2 = exp_loop 256 op1 op2 1

  -- The loop of `signextend` at bit `i`, with `left` rounds left: the bits up to `t` are copied, the
  -- others are bit `t`.
  extend_loop : ℕ → ℕ → ℕ → ℕ → ℕ → ℕ → ℕ
  extend_loop op2 t t_value zero i ret = ret
  extend_loop op2 t t_value (suc left) i ret =
      let i_value = U.shift_right (U.bitand op2 (U.shift_left 1 i)) i in
      extend_loop op2 t t_value left (i + 1) (
        if leb i t
        then U.overflowing_add ret (U.shift_left i_value i)
        else U.overflowing_add ret (U.shift_left t_value i))

  pub signextend : ℕ → ℕ → ℕ
  unfolding extend_loop
  signextend op1 op2 =
      if ltb 32 op1
      then op2
      else let t = 8 * (U.as_usize op1 + 1) - 1 in
        let t_value = U.shift_right (U.bitand op2 (U.shift_left 1 t)) t in
        extend_loop op2 t t_value 256 0 0
