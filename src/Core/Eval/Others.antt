-- ===== src/Core/Eval/Others.antt =====
-- core/src/eval/mod.rs: the handlers of the other opcodes. The handlers of PUSH1 to PUSH32, DUP1 to
-- DUP16 and SWAP1 to SWAP16 differ in their count alone, which is the argument `n`.
use sputnikvm.Base.{ℕ}
use sputnikvm.PrimitiveTypes.{U256Ops}
use sputnikvm.Core.Error.{succeed, stopped, error, designated_invalid}
use sputnikvm.Core.Misc
use sputnikvm.Core.Exec.{continue, exit, trap, pure}
use sputnikvm.Core.Eval.Words.{Handler}

unfoldable pub eval_stop : Handler
eval_stop _ _ = pure (exit (succeed stopped))

unfoldable pub eval_jumpdest : Handler
eval_jumpdest _ _ = pure (continue 1)

unfoldable pub eval_invalid : Handler
eval_invalid _ _ = pure (exit (error designated_invalid))

unfoldable pub eval_external : Handler
eval_external opcode _ = pure (trap opcode)

unfoldable pub eval_pop : Handler
eval_pop _ _ = Misc.pop

unfoldable pub eval_push : ℕ → Handler
eval_push n _ position = Misc.push n position

unfoldable pub eval_dup : ℕ → Handler
eval_dup n _ _ = Misc.dup n

unfoldable pub eval_swap : ℕ → Handler
eval_swap n _ _ = Misc.swap n

module _ ⦃U : U256Ops⦄ where
  unfoldable pub eval_codesize : Handler
  eval_codesize _ _ = Misc.codesize

  unfoldable pub eval_codecopy : Handler
  eval_codecopy _ _ = Misc.codecopy

  unfoldable pub eval_calldataload : Handler
  eval_calldataload _ _ = Misc.calldataload

  unfoldable pub eval_calldatasize : Handler
  eval_calldatasize _ _ = Misc.calldatasize

  unfoldable pub eval_calldatacopy : Handler
  eval_calldatacopy _ _ = Misc.calldatacopy

  unfoldable pub eval_mload : Handler
  eval_mload _ _ = Misc.mload

  unfoldable pub eval_mstore : Handler
  eval_mstore _ _ = Misc.mstore

  unfoldable pub eval_mstore8 : Handler
  eval_mstore8 _ _ = Misc.mstore8

  unfoldable pub eval_jump : Handler
  eval_jump _ _ = Misc.jump

  unfoldable pub eval_jumpi : Handler
  eval_jumpi _ _ = Misc.jumpi

  unfoldable pub eval_msize : Handler
  eval_msize _ _ = Misc.msize

  unfoldable pub eval_pc : Handler
  eval_pc _ position = Misc.pc position

  unfoldable pub eval_return : Handler
  eval_return _ _ = Misc.ret

  unfoldable pub eval_revert : Handler
  eval_revert _ _ = Misc.revert
