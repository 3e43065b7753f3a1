-- ===== src/Executor/State/Change/Funds.antt =====
-- src/executor/stack/state.rs: a transfer as two changes of an account.
use sputnikvm.Base.{ℕ, ok, err, ltb, ◌≡◌, refl, if◌then◌else◌, Bool-cases, inl, inr}
use sputnikvm.PrimitiveTypes.{U256Ops, H160}
use sputnikvm.Core.Error.{out_of_fund}
use sputnikvm.Runtime.Context.{Transfer}
use sputnikvm.Backend.{Backend}
use sputnikvm.Executor.State.{MemoryStackAccount, MemoryStackSubstate}
use sputnikvm.Executor.State.Change.{
  update, touch, with_balance, take_balance, withdraw, deposit, then_deposit, transfer,
}
use sputnikvm.Executor.State.Change.Effect.{account_at}

module _ ⦃U : U256Ops⦄ where
  abbrev pub less : ℕ → MemoryStackAccount → MemoryStackAccount
  less value account = with_balance (U.sub account.basic.balance value) account

  abbrev pub more : ℕ → MemoryStackAccount → MemoryStackAccount
  more value account = with_balance (U.saturating_add account.basic.balance value) account

  pub withdraw_lem :
      (s : MemoryStackSubstate) (a : H160) (v : ℕ) (b : Backend)
      → withdraw s a v b ≡ (
          if ltb (account_at s a b).basic.balance v
          then (err out_of_fund, touch s a b)
          else (ok tt, update s a b (less v)))
  unfolding withdraw take_balance touch update
  withdraw_lem s a v b = refl

  pub deposit_lem :
      (s : MemoryStackSubstate) (a : H160) (v : ℕ) (b : Backend)
      → deposit s a v b ≡ update s a b (more v)
  unfolding deposit
  deposit_lem s a v b = refl

  pub transfer_lem :
      (s : MemoryStackSubstate) (t : Transfer) (b : Backend)
      → transfer s t b ≡ (
          if ltb (account_at s t.source b).basic.balance t.value
          then (err out_of_fund, touch s t.source b)
          else (ok tt, update (update s t.source b (less t.value)) t.target b (more t.value)))
  unfolding transfer then_deposit deposit
  transfer_lem s t b =
      rw (withdraw_lem s t.source t.value b)
        (elim (Bool-cases (ltb (account_at s t.source b).basic.balance t.value)) [
          | inl e ↦ rw e refl
          | inr e ↦ rw e refl
        ])
