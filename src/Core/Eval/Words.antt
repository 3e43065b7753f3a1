-- ===== src/Core/Eval/Words.antt =====
-- core/src/eval/mod.rs: the handlers of the opcodes that compute with words.
use sputnikvm.Base.{ℕ, ltb, ◌==◌, if◌then◌else◌}
use sputnikvm.PrimitiveTypes.{U256Ops}
use sputnikvm.Core.Opcode.{Opcode}
use sputnikvm.Core.Arithmetic
use sputnikvm.Core.Bitwise
use sputnikvm.Core.Exec.{Control, Exec, op1_u256_fn, op2_u256_fn, op3_u256_fn}

-- A handler is given the opcode and its position.
abbrev pub Handler : Type 0
Handler = Opcode → ℕ → Exec Control

module _ ⦃U : U256Ops⦄ where
  unfoldable pub eval_add : Handler
  eval_add _ _ = op2_u256_fn U.overflowing_add

  unfoldable pub eval_mul : Handler
  eval_mul _ _ = op2_u256_fn U.overflowing_mul

  unfoldable pub eval_sub : Handler
  eval_sub _ _ = op2_u256_fn U.overflowing_sub

  unfoldable pub eval_div : Handler
  eval_div _ _ = op2_u256_fn Arithmetic.div

  unfoldable pub eval_sdiv : Handler
  eval_sdiv _ _ = op2_u256_fn Arithmetic.sdiv

  unfoldable pub eval_mod : Handler
  eval_mod _ _ = op2_u256_fn Arithmetic.rem

  unfoldable pub eval_smod : Handler
  eval_smod _ _ = op2_u256_fn Arithmetic.srem

  unfoldable pub eval_addmod : Handler
  eval_addmod _ _ = op3_u256_fn Arithmetic.addmod

  unfoldable pub eval_mulmod : Handler
  eval_mulmod _ _ = op3_u256_fn Arithmetic.mulmod

  unfoldable pub eval_exp : Handler
  eval_exp _ _ = op2_u256_fn Arithmetic.exp

  unfoldable pub eval_signextend : Handler
  eval_signextend _ _ = op2_u256_fn Arithmetic.signextend

  unfoldable pub eval_lt : Handler
  eval_lt _ _ = op2_u256_fn (λ op1 op2. if ltb op1 op2 then 1 else 0)

  unfoldable pub eval_gt : Handler
  eval_gt _ _ = op2_u256_fn (λ op1 op2. if ltb op2 op1 then 1 else 0)

  unfoldable pub eval_slt : Handler
  eval_slt _ _ = op2_u256_fn Bitwise.slt

  unfoldable pub eval_sgt : Handler
  eval_sgt _ _ = op2_u256_fn Bitwise.sgt

  unfoldable pub eval_eq : Handler
  eval_eq _ _ = op2_u256_fn (λ op1 op2. if op1 == op2 then 1 else 0)

  unfoldable pub eval_iszero : Handler
  eval_iszero _ _ = op1_u256_fn Bitwise.iszero

  unfoldable pub eval_and : Handler
  eval_and _ _ = op2_u256_fn U.bitand

  unfoldable pub eval_or : Handler
  eval_or _ _ = op2_u256_fn U.bitor

  unfoldable pub eval_xor : Handler
  eval_xor _ _ = op2_u256_fn U.bitxor

  unfoldable pub eval_not : Handler
  eval_not _ _ = op1_u256_fn Bitwise.not

  unfoldable pub eval_byte : Handler
  eval_byte _ _ = op2_u256_fn Bitwise.byte

  unfoldable pub eval_shl : Handler
  eval_shl _ _ = op2_u256_fn Bitwise.shl

  unfoldable pub eval_shr : Handler
  eval_shr _ _ = op2_u256_fn Bitwise.shr

  unfoldable pub eval_sar : Handler
  eval_sar _ _ = op2_u256_fn Bitwise.sar
