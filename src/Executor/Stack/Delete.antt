-- ===== src/Executor/Stack/Delete.antt =====
-- src/executor/stack/mod.rs: the deletion of an account.
use sputnikvm.Base.{◌+◌, ◌-◌, min, ◌||◌, ok, err, ◌≡◌, refl, ap, ◌∙◌, if◌then◌else◌, arith}
use sputnikvm.Base.Key.{bytes_eq, bytes_eq_iff}
use sputnikvm.PrimitiveTypes.{U256Ops, H160, u256_mod}
use sputnikvm.Runtime.Context.{Transfer}
use sputnikvm.Executor.StackState as StackState
use sputnikvm.Executor.StackState.{MemoryStackState}
use sputnikvm.Executor.StackState.Balance.{
  transfer-basic, transfer-deleted, removed-balance, removed-deleted,
}
use sputnikvm.Executor.Stack.{StackExecutor, balance, mark_delete, deleted_after}

module _ ⦃U : U256Ops⦄ where
  abbrev all_of : StackExecutor → H160 → H160 → Transfer
  all_of e address target = record { source = address; target = target; value = balance e address }

  -- The transfer of the whole balance never fails.
  transfer_ok :
      (e : StackExecutor) (address target : H160)
      → (StackState.transfer e.state (all_of e address target)).0 ≡ ok tt
  unfolding balance
  transfer_ok e address target =
      ground (arith, transfer-basic e.state (all_of e address target) address)

  deleted_after_ok :
      (e : StackExecutor) (address : H160) (c : StackState.Changed)
      → c.0 ≡ ok tt
      → deleted_after e address c ≡ (
        ok tt,
        record e { state = StackState.set_deleted (StackState.reset_balance c.1 address) address },
      )
  unfolding deleted_after
  deleted_after_ok e address (ok u, s) h = refl
  deleted_after_ok e address (err x, s) h = ground arith

  -- The deletion of an account always succeeds. The account is then deleted and has no balance; a target
  -- that is another account has the balance more, up to the largest one; other balances and the deletion
  -- of other accounts stay as they are. The balance of an account that names itself is lost.
  pub mark_delete_lem :
      (e : StackExecutor) (address target j : H160)
      → ((mark_delete e address target).0 ≡ ok tt)
        × (StackState.deleted (mark_delete e address target).1.state j
            ≡ (bytes_eq address j || StackState.deleted e.state j))
        × (balance (mark_delete e address target).1 j ≡ (
            if bytes_eq address j
            then 0
            else if bytes_eq target j
            then min (balance e j + balance e address) (u256_mod - 1)
            else balance e j))
  unfolding mark_delete balance
  mark_delete_lem e address target j =
      let t = all_of e address target in
      let s = (StackState.transfer e.state t).1 in
      rw (deleted_after_ok e address (StackState.transfer e.state t) (transfer_ok e address target))
        (
          refl,
          removed-deleted s address j
              ∙ ap (λ b. bytes_eq address j || b) (transfer-deleted e.state t j),
          ground (
            arith,
            removed-balance s address j,
            transfer-basic e.state t j,
            bytes_eq_iff address j,
          ),
        )
