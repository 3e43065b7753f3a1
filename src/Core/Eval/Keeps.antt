-- ===== src/Core/Eval/Keeps.antt =====
-- core/src/eval/mod.rs: what the handler of each opcode keeps of a machine, and asks for.
use sputnikvm.Base.{
  ℕ, ◌+◌, ◌≤◌, ◌≡◌, ◌≢◌, sym, subst, List, [], ◌∷◌, ◌++◌, ◌==◌, arith, false, ==_iff,
}
use native.Mathlib.Decide.{ℕ_discrete}
use sputnikvm.PrimitiveTypes.{U256Ops, usize_max}
use sputnikvm.Core.Opcode.{Opcode}
use sputnikvm.Core.Valids.Boundary.{instruction_len}
use sputnikvm.Core.Misc
use sputnikvm.Core.Exec.{pure}
use sputnikvm.Core.Machine.{Machine}
use sputnikvm.Core.Exec.Keeps.{Handles, Handles-exit, Handles-continue, IsSound, Allowed}
use sputnikvm.Core.Exec.Macros.{Handles-op1, Handles-op2, Handles-op3}
use sputnikvm.Core.Misc.Keeps.{
  Handles-pop, Handles-push, Handles-dup, Handles-swap, Handles-codesize, Handles-codecopy,
  Handles-calldataload, Handles-calldatasize, Handles-calldatacopy, Handles-mload, Handles-mstore,
  Handles-mstore8, Handles-jump, Handles-jumpi, Handles-pc, Handles-msize, Handles-ret,
  Handles-revert,
}
use sputnikvm.Core.Eval.{
  Table, handler_in, push_table, dup_table, swap_table, word_table, other_table, table, eval,
}
use sputnikvm.Core.Eval.Words.{
  Handler, eval_add, eval_mul, eval_sub, eval_div, eval_sdiv, eval_mod, eval_smod, eval_addmod,
  eval_mulmod, eval_exp, eval_signextend, eval_lt, eval_gt, eval_slt, eval_sgt, eval_eq,
  eval_iszero, eval_and, eval_or, eval_xor, eval_not, eval_byte, eval_shl, eval_shr, eval_sar,
}
use sputnikvm.Core.Eval.Others.{
  eval_stop, eval_jumpdest, eval_invalid, eval_external, eval_push, eval_dup, eval_swap,
  eval_codesize, eval_codecopy, eval_calldataload, eval_calldatasize, eval_calldatacopy, eval_pop,
  eval_mload, eval_mstore, eval_mstore8, eval_jump, eval_jumpi, eval_msize, eval_pc, eval_return,
  eval_revert,
}

-- No entry of the table is for the opcode.
data Misses : Table → Opcode → Type 0 where
  nil : {op : Opcode} → Misses [] op
  cons : {t : Table} {o op : Opcode} {h : Handler} → o ≢ op → Misses t op → Misses ((o, h) ∷ t) op

missed_end : (s : Table) {t : Table} {op : Opcode} → Misses (s ++ t) op → Misses t op
missed_end [] m = m
missed_end (x ∷ s) (cons ne m) = missed_end s m

missed_start : (s t : Table) {op : Opcode} → Misses (s ++ t) op → Misses s op
missed_start [] t m = nil
missed_start (x ∷ s) t (cons ne m) = cons ne (missed_start s t m)

==_ne : (a b : ℕ) → a ≢ b → (a == b) ≡ false
==_ne a b h = ground arith

module _ (code : List ℕ) (sl ml : ℕ) where
  data Served : Table → Type 1 where
    nil : Served []
    cons :
        {t : Table} (o : Opcode) {h : Handler}
        → ((position : ℕ) → Handles code sl ml (instruction_len o) (h o position))
        → Served t
        → Served ((o, h) ∷ t)

module _ {code : List ℕ} {sl ml : ℕ} where
  Served-append :
      {s t : Table} → Served code sl ml s → Served code sl ml t → Served code sl ml (s ++ t)
  Served-append nil ht = ht
  Served-append (cons o h hs) ht = cons o h (Served-append hs ht)

  Handles-external :
      (op position : ℕ)
      → instruction_len op ≡ 1
      → Handles code sl ml (instruction_len op) (eval_external op position)
  unfolding eval_external pure
  Handles-external op position one = record { at = λ s h. (h, one) }

  Handles-handler_in :
      {t : Table} (op position : ℕ)
      → Served code sl ml t
      → (Misses t op → instruction_len op ≡ 1)
      → Handles code sl ml (instruction_len op) (handler_in t op op position)
  unfolding handler_in
  Handles-handler_in op position nil one = Handles-external op position (one nil)
  Handles-handler_in op position (cons o k rest) one = elim (ℕ_discrete o op) [
    | yes e ↦ rw ((==_iff o op).1 e) (rw (← e) (k position))
    | no ne ↦ rw (==_ne o op ne) (Handles-handler_in op position rest (λ m. one (cons ne m)))
  ]

  Served-push_entry :
      {t : Table} (o n : ℕ)
      → instruction_len o ≡ 1 + n
      → Served code sl ml t
      → Served code sl ml ((o, eval_push n) ∷ t)
  unfolding eval_push
  Served-push_entry o n e rest =
      cons o
        (λ position.
          subst (λ size. Handles code sl ml size (Misc.push n position)) (sym e)
            (Handles-push n position))
        rest

  Served-push : Served code sl ml push_table
  Served-push = search (nil, Served-push_entry) depth 100

  Served-dup : Served code sl ml dup_table
  unfolding eval_dup
  Served-dup = search (nil, cons, Handles-dup) depth 100

  Served-swap : Served code sl ml swap_table
  unfolding eval_swap
  Served-swap = search (nil, cons, Handles-swap) depth 100

push_missed : (op : ℕ) → Misses push_table op → instruction_len op ≡ 1
push_missed op
      (cons n1 (
        cons n2 (
          cons n3 (
            cons n4 (
              cons n5 (
                cons n6 (
                  cons n7 (
                    cons n8 (
                      cons n9 (
                        cons n10 (
                          cons n11 (
                            cons n12 (
                              cons n13 (
                                cons n14 (
                                  cons n15 (
                                    cons n16 (
                                      cons n17 (
                                        cons n18 (
                                          cons n19 (
                                            cons n20 (
                                              cons n21 (
                                                cons n22 (
                                                  cons n23 (
                                                    cons n24 (
                                                      cons n25 (
                                                        cons n26 (
                                                          cons n27 (
                                                            cons n28 (
                                                            cons n29 (
                                                            cons n30 (
                                                            cons n31 (
                                                            cons n32
                                                            nil)))))))))))))))))))))))))))))))) =
    ground arith

module _ ⦃U : U256Ops⦄ where
  table_missed : (op : ℕ) → Misses table op → instruction_len op ≡ 1
  table_missed op m =
      push_missed op (missed_start push_table _ (missed_end other_table (missed_end word_table m)))

module _ ⦃U : U256Ops⦄ {code : List ℕ} {sl ml : ℕ} where
  Served-word : Served code sl ml word_table
  unfolding eval_add eval_mul eval_sub eval_div eval_sdiv eval_mod eval_smod eval_addmod eval_mulmod
      eval_exp eval_signextend eval_lt eval_gt eval_slt eval_sgt eval_eq eval_iszero eval_and
      eval_or eval_xor eval_not eval_byte eval_shl eval_shr eval_sar
  Served-word = search (nil, cons, Handles-op1, Handles-op2, Handles-op3) depth 100

  Served-other : ml ≤ usize_max → Served code sl ml other_table
  unfolding eval_stop eval_jumpdest eval_invalid eval_codesize eval_codecopy eval_calldataload
      eval_calldatasize eval_calldatacopy eval_pop eval_mload eval_mstore eval_mstore8 eval_jump
      eval_jumpi eval_msize eval_pc eval_return eval_revert
  Served-other small =
      search
        (
          nil,
          cons,
          Handles-exit,
          Handles-continue,
          Handles-codesize,
          Handles-codecopy small,
          Handles-calldataload,
          Handles-calldatasize,
          Handles-calldatacopy small,
          Handles-pop,
          Handles-mload,
          Handles-mstore small,
          Handles-mstore8 small,
          Handles-jump,
          Handles-jumpi,
          Handles-msize,
          Handles-pc,
          Handles-ret,
          Handles-revert,
        )
        depth 100

  Served-table : ml ≤ usize_max → Served code sl ml table
  Served-table small = Served-append Served-word (
      Served-append (Served-other small)
        (Served-append Served-push (Served-append Served-dup Served-swap)))

  -- On a sound machine whose memory limit is a `usize`, the handler of each opcode keeps it sound, and asks
  -- for the next instruction, for a valid destination, for an exit, or for a trap at an instruction of one
  -- byte.
  pub eval-Allowed :
      (op position : ℕ) (s : Machine)
      → ml ≤ usize_max
      → IsSound code sl ml s
      → IsSound code sl ml (eval op position s).1
        × Allowed code (instruction_len op) (eval op position s).0
  unfolding eval
  eval-Allowed op position s small sound =
      (Handles-handler_in op position (Served-table small) (table_missed op)).at s sound
