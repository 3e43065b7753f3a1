-- ===== src/Core/Eval.antt =====
-- core/src/eval/mod.rs: the table of handlers.
pub mod Words
pub mod Others
pub mod Keeps
pub mod NoTrap
use sputnikvm.Base.{ℕ, List, [], ◌∷◌, ◌++◌, ◌==◌, if◌then◌else◌}
use sputnikvm.PrimitiveTypes.{U256Ops}
use sputnikvm.Core.Opcode
use sputnikvm.Core.Opcode.{Opcode}
use sputnikvm.Core.Machine.{Machine}
use sputnikvm.Core.Exec.{Control, control_of}
use sputnikvm.Core.Eval.Words.{
  Handler, eval_add, eval_mul, eval_sub, eval_div, eval_sdiv, eval_mod, eval_smod, eval_addmod,
  eval_mulmod, eval_exp, eval_signextend, eval_lt, eval_gt, eval_slt, eval_sgt, eval_eq,
  eval_iszero, eval_and, eval_or, eval_xor, eval_not, eval_byte, eval_shl, eval_shr, eval_sar,
}
use sputnikvm.Core.Eval.Others.{
  eval_stop, eval_jumpdest, eval_invalid, eval_external, eval_push, eval_dup, eval_swap,
  eval_codesize, eval_codecopy, eval_calldataload, eval_calldatasize, eval_calldatacopy, eval_pop,
  eval_mload, eval_mstore, eval_mstore8, eval_jump, eval_jumpi, eval_msize, eval_pc, eval_return,
  eval_revert,
}

abbrev pub Table : Type 0
Table = List (Opcode × Handler)

abbrev pub push_table : Table
push_table =
    (Opcode.push1, eval_push 1)
    ∷ (Opcode.push2, eval_push 2)
    ∷ (Opcode.push3, eval_push 3)
    ∷ (Opcode.push4, eval_push 4)
    ∷ (Opcode.push5, eval_push 5)
    ∷ (Opcode.push6, eval_push 6)
    ∷ (Opcode.push7, eval_push 7)
    ∷ (Opcode.push8, eval_push 8)
    ∷ (Opcode.push9, eval_push 9)
    ∷ (Opcode.push10, eval_push 10)
    ∷ (Opcode.push11, eval_push 11)
    ∷ (Opcode.push12, eval_push 12)
    ∷ (Opcode.push13, eval_push 13)
    ∷ (Opcode.push14, eval_push 14)
    ∷ (Opcode.push15, eval_push 15)
    ∷ (Opcode.push16, eval_push 16)
    ∷ (Opcode.push17, eval_push 17)
    ∷ (Opcode.push18, eval_push 18)
    ∷ (Opcode.push19, eval_push 19)
    ∷ (Opcode.push20, eval_push 20)
    ∷ (Opcode.push21, eval_push 21)
    ∷ (Opcode.push22, eval_push 22)
    ∷ (Opcode.push23, eval_push 23)
    ∷ (Opcode.push24, eval_push 24)
    ∷ (Opcode.push25, eval_push 25)
    ∷ (Opcode.push26, eval_push 26)
    ∷ (Opcode.push27, eval_push 27)
    ∷ (Opcode.push28, eval_push 28)
    ∷ (Opcode.push29, eval_push 29)
    ∷ (Opcode.push30, eval_push 30)
    ∷ (Opcode.push31, eval_push 31)
    ∷ (Opcode.push32, eval_push 32)
    ∷ []

abbrev pub dup_table : Table
dup_table =
    (Opcode.dup1, eval_dup 1)
    ∷ (Opcode.dup2, eval_dup 2)
    ∷ (Opcode.dup3, eval_dup 3)
    ∷ (Opcode.dup4, eval_dup 4)
    ∷ (Opcode.dup5, eval_dup 5)
    ∷ (Opcode.dup6, eval_dup 6)
    ∷ (Opcode.dup7, eval_dup 7)
    ∷ (Opcode.dup8, eval_dup 8)
    ∷ (Opcode.dup9, eval_dup 9)
    ∷ (Opcode.dup10, eval_dup 10)
    ∷ (Opcode.dup11, eval_dup 11)
    ∷ (Opcode.dup12, eval_dup 12)
    ∷ (Opcode.dup13, eval_dup 13)
    ∷ (Opcode.dup14, eval_dup 14)
    ∷ (Opcode.dup15, eval_dup 15)
    ∷ (Opcode.dup16, eval_dup 16)
    ∷ []

abbrev pub swap_table : Table
swap_table =
    (Opcode.swap1, eval_swap 1)
    ∷ (Opcode.swap2, eval_swap 2)
    ∷ (Opcode.swap3, eval_swap 3)
    ∷ (Opcode.swap4, eval_swap 4)
    ∷ (Opcode.swap5, eval_swap 5)
    ∷ (Opcode.swap6, eval_swap 6)
    ∷ (Opcode.swap7, eval_swap 7)
    ∷ (Opcode.swap8, eval_swap 8)
    ∷ (Opcode.swap9, eval_swap 9)
    ∷ (Opcode.swap10, eval_swap 10)
    ∷ (Opcode.swap11, eval_swap 11)
    ∷ (Opcode.swap12, eval_swap 12)
    ∷ (Opcode.swap13, eval_swap 13)
    ∷ (Opcode.swap14, eval_swap 14)
    ∷ (Opcode.swap15, eval_swap 15)
    ∷ (Opcode.swap16, eval_swap 16)
    ∷ []

-- `TABLE[opcode]`: the handler set for the opcode, and `eval_external` where none is.
pub handler_in : Table → Opcode → Handler
handler_in [] opcode = eval_external
handler_in ((o, h) ∷ rest) opcode = if o == opcode then h else handler_in rest opcode

module _ ⦃U : U256Ops⦄ where
  abbrev pub word_table : Table
  word_table =
      (Opcode.add, eval_add)
      ∷ (Opcode.mul, eval_mul)
      ∷ (Opcode.sub, eval_sub)
      ∷ (Opcode.div, eval_div)
      ∷ (Opcode.sdiv, eval_sdiv)
      ∷ (Opcode.mod_op, eval_mod)
      ∷ (Opcode.smod, eval_smod)
      ∷ (Opcode.addmod, eval_addmod)
      ∷ (Opcode.mulmod, eval_mulmod)
      ∷ (Opcode.exp, eval_exp)
      ∷ (Opcode.signextend, eval_signextend)
      ∷ (Opcode.lt, eval_lt)
      ∷ (Opcode.gt, eval_gt)
      ∷ (Opcode.slt, eval_slt)
      ∷ (Opcode.sgt, eval_sgt)
      ∷ (Opcode.eq, eval_eq)
      ∷ (Opcode.iszero, eval_iszero)
      ∷ (Opcode.and, eval_and)
      ∷ (Opcode.or, eval_or)
      ∷ (Opcode.xor, eval_xor)
      ∷ (Opcode.not, eval_not)
      ∷ (Opcode.byte, eval_byte)
      ∷ (Opcode.shl, eval_shl)
      ∷ (Opcode.shr, eval_shr)
      ∷ (Opcode.sar, eval_sar)
      ∷ []

  abbrev pub other_table : Table
  other_table =
      (Opcode.stop, eval_stop)
      ∷ (Opcode.codesize, eval_codesize)
      ∷ (Opcode.codecopy, eval_codecopy)
      ∷ (Opcode.calldataload, eval_calldataload)
      ∷ (Opcode.calldatasize, eval_calldatasize)
      ∷ (Opcode.calldatacopy, eval_calldatacopy)
      ∷ (Opcode.pop, eval_pop)
      ∷ (Opcode.mload, eval_mload)
      ∷ (Opcode.mstore, eval_mstore)
      ∷ (Opcode.mstore8, eval_mstore8)
      ∷ (Opcode.jump, eval_jump)
      ∷ (Opcode.jumpi, eval_jumpi)
      ∷ (Opcode.pc, eval_pc)
      ∷ (Opcode.msize, eval_msize)
      ∷ (Opcode.jumpdest, eval_jumpdest)
      ∷ (Opcode.return, eval_return)
      ∷ (Opcode.revert, eval_revert)
      ∷ (Opcode.invalid, eval_invalid)
      ∷ []

  abbrev pub table : Table
  table = word_table ++ (other_table ++ (push_table ++ (dup_table ++ swap_table)))

  pub eval : Opcode → ℕ → Machine → Control × Machine
  unfolding handler_in
  eval opcode position s =
      let (r, s') = handler_in table opcode opcode position s in (control_of r, s')
