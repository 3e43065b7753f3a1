-- ===== src/Executor/State/Change.antt =====
-- src/executor/stack/state.rs: the operations that change the current substate.
pub mod Keeps
pub mod Effect
pub mod Funds
use sputnikvm.Base.{
  ℕ, Bool, true, false, List, [], ◌∷◌, ◌++◌, Option, none, some, ok, err, ltb, if◌then◌else◌,
}
use sputnikvm.Base.Result.{Result}
use sputnikvm.Base.Key.{bytes_eq, bytes_key, pair_key}
use sputnikvm.Base.Map
use sputnikvm.PrimitiveTypes.{U256Ops, H160, H256}
use sputnikvm.Core.Error.{ExitError, out_of_fund}
use sputnikvm.Runtime.Context.{Transfer}
use sputnikvm.Backend.{Basic, Log, Backend}
use sputnikvm.Executor.State.{MemoryStackAccount, Frame, MemoryStackSubstate}
use sputnikvm.Executor.State.Known.{known_account}

-- What an operation returns, and the substate after it.
abbrev pub Changed : Type 0
Changed = Result ExitError (Unit {0}) × MemoryStackSubstate

-- The account that `account_mut` inserts: what the parents know, not reset, or what the backend does.
unfoldable pub fresh : Option MemoryStackAccount → Basic → MemoryStackAccount
fresh none basic = record { basic = basic; code = none; reset = false }
fresh (some account) basic = record account { reset = false }

-- An account of the current frame, which is written through a reference.
unfoldable pub put_account : MemoryStackSubstate → H160 → MemoryStackAccount → MemoryStackSubstate
put_account s address account = record s {
  top = record s.top { accounts = Map.insert s.top.accounts address account };
}

-- The account of `address` in the current frame, and the substate that has it.
unfoldable pub account_or_insert :
    MemoryStackSubstate
    → H160
    → Backend
    → Option MemoryStackAccount
    → MemoryStackAccount × MemoryStackSubstate
unfolding fresh put_account
account_or_insert s address backend (some account) = (account, s)
account_or_insert s address backend none =
    let account = fresh (known_account s address) (backend.basic address) in
    (account, put_account s address account)

unfoldable pub account_mut :
    MemoryStackSubstate → H160 → Backend → MemoryStackAccount × MemoryStackSubstate
unfolding account_or_insert
account_mut s address backend = account_or_insert s address backend (Map.get s.top.accounts address)

-- A change of the account that `account_mut` returns.
pub update :
    MemoryStackSubstate
    → H160
    → Backend
    → (MemoryStackAccount → MemoryStackAccount)
    → MemoryStackSubstate
unfolding account_mut put_account
update s address backend f =
    let (account, inserted) = account_mut s address backend in
    put_account inserted address (f account)

abbrev pub with_balance : ℕ → MemoryStackAccount → MemoryStackAccount
with_balance balance account = record account { basic = record account.basic { balance = balance } }

pub set_storage : MemoryStackSubstate → H160 → H256 → H256 → MemoryStackSubstate
set_storage s address key value = record s {
  top = record s.top { storages = Map.insert s.top.storages (address, key) value };
}

-- The two loops of `reset_storage`.
remove_storage : MemoryStackSubstate → H160 → MemoryStackSubstate
remove_storage s address = record s {
  top = record s.top {
    storages =
        Map.remove_all s.top.storages (Map.keys_with (λ k. bytes_eq k.0 address) s.top.storages);
  };
}

pub reset_storage : MemoryStackSubstate → H160 → Backend → MemoryStackSubstate
unfolding remove_storage update
reset_storage s address backend =
    update (remove_storage s address) address backend λ account. record account { reset = true }

pub log : MemoryStackSubstate → H160 → List H256 → List ℕ → MemoryStackSubstate
log s address topics bytes = record s {
  top = record s.top {
    logs = s.top.logs ++ (record { address = address; topics = topics; bytes = bytes } ∷ []);
  };
}

unfoldable pub set_deleted : MemoryStackSubstate → H160 → MemoryStackSubstate
set_deleted s address = record s {
  top = record s.top { deletes = Map.insert s.top.deletes address tt };
}

unfoldable pub set_code : MemoryStackSubstate → H160 → List ℕ → Backend → MemoryStackSubstate
unfolding update
set_code s address code backend =
    update s address backend λ account. record account { code = some code }

unfoldable pub reset_balance : MemoryStackSubstate → H160 → Backend → MemoryStackSubstate
unfolding update
reset_balance s address backend = update s address backend (with_balance 0)

unfoldable pub touch : MemoryStackSubstate → H160 → Backend → MemoryStackSubstate
unfolding account_mut
touch s address backend = (account_mut s address backend).1

module _ ⦃U : U256Ops⦄ where
  -- None where the nonce is the largest `U256`: the addition panics.
  unfoldable pub inc_nonce : MemoryStackSubstate → H160 → Backend → Option MemoryStackSubstate
  unfolding account_mut update
  inc_nonce s address backend =
      elim (U.checked_add (account_mut s address backend).0.basic.nonce 1) [
        | none ↦ none
        | some nonce ↦ some (
            update s address backend
              λ account. record account { basic = record account.basic { nonce = nonce } })
      ]

  -- The check of the balance, and what is taken from it.
  take_balance : MemoryStackSubstate → H160 → ℕ → MemoryStackAccount → Changed
  unfolding put_account
  take_balance s address value account =
      if ltb account.basic.balance value
      then (err out_of_fund, s)
      else (ok tt, put_account s address (with_balance (U.sub account.basic.balance value) account))

  unfoldable pub withdraw : MemoryStackSubstate → H160 → ℕ → Backend → Changed
  unfolding account_mut take_balance
  withdraw s address value backend =
      let (account, inserted) = account_mut s address backend in
      take_balance inserted address value account

  unfoldable pub deposit : MemoryStackSubstate → H160 → ℕ → Backend → MemoryStackSubstate
  unfolding update
  deposit s address value backend =
      update s address backend
        λ account. with_balance (U.saturating_add account.basic.balance value) account

  -- The second block of `transfer`.
  then_deposit : H160 → ℕ → Backend → Changed → Changed
  unfolding deposit
  then_deposit target value backend (err e, s) = (err e, s)
  then_deposit target value backend (ok u, s) = (ok u, deposit s target value backend)

  unfoldable pub transfer : MemoryStackSubstate → Transfer → Backend → Changed
  unfolding withdraw then_deposit
  transfer s t backend = then_deposit t.target t.value backend (withdraw s t.source t.value backend)
