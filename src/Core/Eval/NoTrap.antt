-- ===== src/Core/Eval/NoTrap.antt =====
-- core/src/eval/mod.rs: which opcodes trap.
use sputnikvm.Base.{ℕ, [], ◌∷◌, ◌++◌, ◌==◌, Bool-cases, inl, inr}
use sputnikvm.PrimitiveTypes.{U256Ops}
use sputnikvm.Core.Opcode.{Opcode}
use sputnikvm.Core.Exec.{Control, trap, pure, control_of}
use sputnikvm.Core.Exec.NoTrap.{
  NoTrap, IsNoTrap, NoTrap-exit, NoTrap-continue, NoTrap-op1, NoTrap-op2, NoTrap-op3,
}
use sputnikvm.Core.Machine.{Machine}
use sputnikvm.Core.Misc.NoTrap as Misc
use sputnikvm.Core.Eval.{
  Table, handler_in, push_table, dup_table, swap_table, word_table, other_table, table, eval,
}
use sputnikvm.Core.Eval.Words.{
  Handler, eval_add, eval_mul, eval_sub, eval_div, eval_sdiv, eval_mod, eval_smod, eval_addmod,
  eval_mulmod, eval_exp, eval_signextend, eval_lt, eval_gt, eval_slt, eval_sgt, eval_eq,
  eval_iszero, eval_and, eval_or, eval_xor, eval_not, eval_byte, eval_shl, eval_shr, eval_sar,
}
use sputnikvm.Core.Eval.Others.{
  eval_stop, eval_jumpdest, eval_invalid, eval_external, eval_push, eval_dup, eval_swap,
  eval_codesize, eval_codecopy, eval_calldataload, eval_calldatasize, eval_calldatacopy, eval_pop,
  eval_mload, eval_mstore, eval_mstore8, eval_jump, eval_jumpi, eval_msize, eval_pc, eval_return,
  eval_revert,
}

-- Every handler of the table never traps.
data Silent : Table → Type 0 where
  nil : Silent []
  cons :
      {t : Table} (o : Opcode) {h : Handler}
      → ((op position : ℕ) → NoTrap (h op position))
      → Silent t
      → Silent ((o, h) ∷ t)

Silent-append : {s t : Table} → Silent s → Silent t → Silent (s ++ t)
Silent-append nil ht = ht
Silent-append (cons o h hs) ht = cons o h (Silent-append hs ht)

-- A control, and the machine with it, where a trap is for the opcode and the machine is as it was.
pub data TrapsAs (op : Opcode) (s : Machine) : Control → Machine → Type 0 where
  silent : (c : Control) (t : Machine) → IsNoTrap c → TrapsAs op s c t
  traps : TrapsAs op s (trap op) s

TrapsAs-handler_in :
    {t : Table} (op position : ℕ) (s : Machine)
    → Silent t
    → TrapsAs op s (control_of (handler_in t op op position s).0) (handler_in t op op position s).1
unfolding handler_in eval_external pure
TrapsAs-handler_in op position s nil = traps
TrapsAs-handler_in op position s (cons o {h} k rest) = elim (Bool-cases (o == op)) [
  | inl e ↦ rw e (silent _ _ ((k op position).at s))
  | inr e ↦ rw e (TrapsAs-handler_in op position s rest)
]

Silent-push_entry : {t : Table} (o n : ℕ) → Silent t → Silent ((o, eval_push n) ∷ t)
unfolding eval_push
Silent-push_entry o n rest = cons o (λ op position. Misc.NoTrap-push n position) rest

Silent-push : Silent push_table
Silent-push = search (nil, Silent-push_entry) depth 100

Silent-dup : Silent dup_table
unfolding eval_dup
Silent-dup = search (nil, cons, Misc.NoTrap-dup) depth 100

Silent-swap : Silent swap_table
unfolding eval_swap
Silent-swap = search (nil, cons, Misc.NoTrap-swap) depth 100

module _ ⦃U : U256Ops⦄ where
  Silent-word : Silent word_table
  unfolding eval_add eval_mul eval_sub eval_div eval_sdiv eval_mod eval_smod eval_addmod eval_mulmod
      eval_exp eval_signextend eval_lt eval_gt eval_slt eval_sgt eval_eq eval_iszero eval_and
      eval_or eval_xor eval_not eval_byte eval_shl eval_shr eval_sar
  Silent-word = search (nil, cons, NoTrap-op1, NoTrap-op2, NoTrap-op3) depth 100

  Silent-other : Silent other_table
  unfolding eval_stop eval_jumpdest eval_invalid eval_codesize eval_codecopy eval_calldataload
      eval_calldatasize eval_calldatacopy eval_pop eval_mload eval_mstore eval_mstore8 eval_jump
      eval_jumpi eval_msize eval_pc eval_return eval_revert
  Silent-other =
      search
        (
          nil, cons, NoTrap-exit, NoTrap-continue, Misc.NoTrap-codesize, Misc.NoTrap-codecopy,
          Misc.NoTrap-calldataload, Misc.NoTrap-calldatasize, Misc.NoTrap-calldatacopy,
          Misc.NoTrap-pop, Misc.NoTrap-mload, Misc.NoTrap-mstore, Misc.NoTrap-mstore8,
          Misc.NoTrap-jump_op, Misc.NoTrap-jumpi, Misc.NoTrap-msize, Misc.NoTrap-pc,
          Misc.NoTrap-ret, Misc.NoTrap-revert,
        )
        depth 100

  Silent-table : Silent table
  Silent-table = Silent-append Silent-word (
      Silent-append Silent-other (Silent-append Silent-push (Silent-append Silent-dup Silent-swap)))

  -- An opcode that traps does so as itself, and leaves the machine as it was.
  pub eval-TrapsAs :
      (op position : ℕ) (s : Machine) → TrapsAs op s (eval op position s).0 (eval op position s).1
  unfolding eval
  eval-TrapsAs op position s = TrapsAs-handler_in op position s Silent-table
