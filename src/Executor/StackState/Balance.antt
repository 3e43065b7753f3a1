-- ===== src/Executor/StackState/Balance.antt =====
-- src/executor/stack/state.rs: what a transfer does to the balances.
use sputnikvm.Base.{
  ◌||◌, ℕ, ◌+◌, ◌-◌, ◌<◌, ◌≤◌, min, false, ok, err, ltb, ◌≡◌, refl, ◌∙◌, if◌then◌else◌, arith,
  Bool-cases, inl, inr,
}
use sputnikvm.Base.Key.{bytes_eq, bytes_eq_iff, bytes_key}
use sputnikvm.PrimitiveTypes.{U256Ops, H160, u256_mod}
use sputnikvm.Core.Error.{out_of_fund}
use sputnikvm.Runtime.Context.{Transfer}
use sputnikvm.Executor.State.Known.{known_basic, known_account, known_account_in}
use sputnikvm.Executor.State.Change as Change
use sputnikvm.Executor.State.Change.{with_balance}
use sputnikvm.Executor.State.Change.Funds as Funds
use sputnikvm.Executor.State.Change.Effect.{
  account_mut_known, touch-known_account, touch-deleted, update-deleted, set_deleted-deleted,
}
use sputnikvm.Executor.StackState
use sputnikvm.Executor.StackState.{
  MemoryStackState, Changed, changed, basic, touch, withdraw, deposit, transfer,
}
use sputnikvm.Executor.StackState.View.{update, update-basic, account_at_basic}

-- An account that is only touched has the basic information that it had.
pub touch-basic : (s : MemoryStackState) (a j : H160) → basic (touch s a) j ≡ basic s j
unfolding basic touch known_basic
touch-basic s a j = ground (
  arith,
  touch-known_account s.substate a j s.backend,
  account_mut_known s.substate a s.backend,
  bytes_eq_iff a j,
)

module _ ⦃U : U256Ops⦄ where
  -- `transfer` by what is seen of the source.
  pub transfer_lem :
      (s : MemoryStackState) (t : Transfer)
      → transfer s t ≡ (
          if ltb (basic s t.source).balance t.value then (err out_of_fund, touch s t.source) else (
            ok tt,
            update (update s t.source (Funds.less t.value)) t.target (Funds.more t.value),
          ))
  unfolding transfer changed touch
  transfer_lem s t =
      rw (Funds.transfer_lem s.substate t s.backend, account_at_basic s t.source)
        (elim (Bool-cases (ltb (basic s t.source).balance t.value)) [
          | inl e ↦ rw e refl
          | inr e ↦ rw e refl
        ])

  -- What is left of the balance of an account, and what it has then received.
  abbrev paid : MemoryStackState → Transfer → H160 → ℕ
  paid s t j = if bytes_eq t.source j then (basic s j).balance - t.value else (basic s j).balance

  abbrev received : MemoryStackState → Transfer → H160 → ℕ
  received s t j =
      if bytes_eq t.target j then min (paid s t j + t.value) (u256_mod - 1) else paid s t j

  less-basic :
      (s : MemoryStackState) (t : Transfer) (j : H160)
      → ltb (basic s t.source).balance t.value ≡ false
      → basic (update s t.source (Funds.less t.value)) j
        ≡ record { balance = paid s t j; nonce = (basic s j).nonce }
  less-basic s t j h = ground (
    arith,
    update-basic s t.source j (Funds.less t.value)
        (λ b. record b { balance = U.sub b.balance t.value }) (λ account. refl),
    bytes_eq_iff t.source j,
    U.sub_law (basic s t.source).balance t.value,
  )

  more-basic :
      (s : MemoryStackState) (a j : H160) (v : ℕ)
      → basic (update s a (Funds.more v)) j ≡ (
          if bytes_eq a j
          then record {
            balance = min ((basic s j).balance + v) (u256_mod - 1);
            nonce = (basic s j).nonce;
          }
          else basic s j)
  more-basic s a j v = ground (
    arith,
    update-basic s a j (Funds.more v) (λ b. record b { balance = U.saturating_add b.balance v })
        (λ account. refl),
    bytes_eq_iff a j,
    U.saturating_add_law (basic s a).balance v,
  )

  -- A transfer of more than the balance of the source fails with `OutOfFund`, and every account is
  -- seen with the balance and the nonce that it had. Every other transfer succeeds: the source has the value less, the target then
  -- has it more, up to the largest balance, no other balance changes, and no nonce does.
  pub transfer-basic :
      (s : MemoryStackState) (t : Transfer) (j : H160)
      → ((transfer s t).0
          ≡ (if ltb (basic s t.source).balance t.value then err out_of_fund else ok tt))
        × (basic (transfer s t).1 j ≡ (
            if ltb (basic s t.source).balance t.value
            then basic s j
            else record { balance = received s t j; nonce = (basic s j).nonce }))
  transfer-basic s t j =
      rw (transfer_lem s t) (elim (Bool-cases (ltb (basic s t.source).balance t.value)) [
        | inl e ↦ rw e (refl, touch-basic s t.source j)
        | inr e ↦ rw e (
          refl,
          rw
              (
                more-basic (update s t.source (Funds.less t.value)) t.target j t.value,
                less-basic s t j e,
              )
              (ground arith),
        )
      ])

  -- A transfer between two accounts, of no more than the source has, after which the target has no more than a `U256` holds,
  -- succeeds, and leaves the sum of the two balances as it was.
  pub transfer-sum :
      (s : MemoryStackState) (t : Transfer)
      → bytes_eq t.source t.target ≡ false
      → t.value ≤ (basic s t.source).balance
      → (basic s t.target).balance + t.value < u256_mod
      → ((transfer s t).0 ≡ ok tt)
        × ((basic (transfer s t).1 t.source).balance + (basic (transfer s t).1 t.target).balance
            ≡ (basic s t.source).balance + (basic s t.target).balance)
  transfer-sum s t h k f = ground (
    arith,
    transfer-basic s t t.source,
    transfer-basic s t t.target,
    bytes_eq_iff t.source t.target,
    bytes_eq_iff t.source t.source,
    bytes_eq_iff t.target t.target,
    bytes_eq_iff t.target t.source,
  )

  pub transfer-deleted :
      (s : MemoryStackState) (t : Transfer) (j : H160)
      → StackState.deleted (transfer s t).1 j ≡ StackState.deleted s j
  unfolding StackState.deleted touch
  transfer-deleted s t j =
      rw (transfer_lem s t) (elim (Bool-cases (ltb (basic s t.source).balance t.value)) [
        | inl e ↦ rw e (touch-deleted s.substate t.source j s.backend)
        | inr e ↦ rw e (
            update-deleted (update s t.source (Funds.less t.value)).substate t.target j s.backend
              (Funds.more t.value)
            ∙ update-deleted s.substate t.source j s.backend (Funds.less t.value))
      ])

-- An account whose balance is reset and that is deleted.
pub removed-balance :
    (s : MemoryStackState) (a j : H160)
    → (basic (StackState.set_deleted (StackState.reset_balance s a) a) j).balance
      ≡ (if bytes_eq a j then 0 else (basic s j).balance)
unfolding StackState.set_deleted StackState.reset_balance Change.set_deleted Change.reset_balance
    basic known_basic known_account known_account_in
removed-balance s a j =
    ground
      (arith, update-basic s a j (with_balance 0) (λ b. record b { balance = 0 }) (λ account. refl))

pub removed-deleted :
    (s : MemoryStackState) (a j : H160)
    → StackState.deleted (StackState.set_deleted (StackState.reset_balance s a) a) j
      ≡ (bytes_eq a j || StackState.deleted s j)
unfolding StackState.deleted StackState.set_deleted StackState.reset_balance Change.reset_balance
removed-deleted s a j =
    rw
      (
        set_deleted-deleted (Change.update s.substate a s.backend (with_balance 0)) a j,
        update-deleted s.substate a j s.backend (with_balance 0),
      )
      refl
