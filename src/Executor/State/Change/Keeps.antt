-- ===== src/Executor/State/Change/Keeps.antt =====
-- src/executor/stack/state.rs: what no operation on the current substate changes.
use sputnikvm.Base.{
  ℕ, List, Option, none, some, ok, err, ltb, ◌≡◌, refl, ◌∙◌, Bool-cases, inl, inr, Option-cases,
  some-injective, subst, arith,
}
use sputnikvm.Base.Key.{bytes_key, pair_key}
use sputnikvm.Base.Map.Sorted.{IsSorted, insert-IsSorted}
use sputnikvm.PrimitiveTypes.{U256Ops, H160, H256}
use sputnikvm.Runtime.Context.{Transfer}
use sputnikvm.Backend.{Backend}
use sputnikvm.Executor.State.{MemoryStackAccount, MemoryStackSubstate}
use sputnikvm.Executor.State.Change.{
  Changed, put_account, account_or_insert, account_mut, update, remove_storage, set_storage,
  reset_storage, log, set_deleted, set_code, reset_balance, touch, inc_nonce, take_balance,
  withdraw, deposit, then_deposit, transfer,
}

-- The parents and the metadata stay as they are, and the accounts stay sorted.
pub record Keeps (s t : MemoryStackSubstate) : Type 0 where
  pub parents : t.parents ≡ s.parents
  pub metadata : t.top.metadata ≡ s.top.metadata
  pub sorted : IsSorted s.top.accounts → IsSorted t.top.accounts

pub same : (s : MemoryStackSubstate) → Keeps s s
same s = record { parents = refl; metadata = refl; sorted = λ h. h }

pub then : {s t u : MemoryStackSubstate} → Keeps s t → Keeps t u → Keeps s u
then k l = record {
  parents = l.parents ∙ k.parents;
  metadata = l.metadata ∙ k.metadata;
  sorted = λ h. l.sorted (k.sorted h);
}

put_account-Keeps :
    (s : MemoryStackSubstate) (a : H160) (account : MemoryStackAccount)
    → Keeps s (put_account s a account)
unfolding put_account
put_account-Keeps s a account = record {
  parents = refl;
  metadata = refl;
  sorted = insert-IsSorted s.top.accounts a account;
}

account_or_insert-Keeps :
    (s : MemoryStackSubstate) (a : H160) (b : Backend) (o : Option MemoryStackAccount)
    → Keeps s (account_or_insert s a b o).1
unfolding account_or_insert
account_or_insert-Keeps s a b (some account) = same s
account_or_insert-Keeps s a b none = put_account-Keeps s a _

pub touch-Keeps : (s : MemoryStackSubstate) (a : H160) (b : Backend) → Keeps s (touch s a b)
unfolding touch account_mut
touch-Keeps s a b = account_or_insert-Keeps s a b _

pub update-Keeps :
    (s : MemoryStackSubstate) (a : H160) (b : Backend) (f : MemoryStackAccount → MemoryStackAccount)
    → Keeps s (update s a b f)
unfolding update account_mut
update-Keeps s a b f = then (account_or_insert-Keeps s a b _) (put_account-Keeps _ a _)

pub reset_storage-Keeps :
    (s : MemoryStackSubstate) (a : H160) (b : Backend) → Keeps s (reset_storage s a b)
unfolding reset_storage remove_storage
reset_storage-Keeps s a b =
    then {t = remove_storage s a} record { parents = refl; metadata = refl; sorted = λ h. h }
      (search update-Keeps)

module _ ⦃U : U256Ops⦄ where
  take_balance-Keeps :
      (s : MemoryStackSubstate) (a : H160) (v : ℕ) (account : MemoryStackAccount)
      → Keeps s (take_balance s a v account).1
  unfolding take_balance
  take_balance-Keeps s a v account = elim (Bool-cases (ltb account.basic.balance v)) [
    | inl e ↦ rw (e, take_balance) (same s)
    | inr e ↦ rw (e, take_balance) (put_account-Keeps s a _)
  ]

  pub withdraw-Keeps :
      (s : MemoryStackSubstate) (a : H160) (v : ℕ) (b : Backend) → Keeps s (withdraw s a v b).1
  unfolding withdraw account_mut
  withdraw-Keeps s a v b = then (account_or_insert-Keeps s a b _) (take_balance-Keeps _ a v _)

  pub deposit-Keeps :
      (s : MemoryStackSubstate) (a : H160) (v : ℕ) (b : Backend) → Keeps s (deposit s a v b)
  unfolding deposit
  deposit-Keeps s a v b = search update-Keeps

  then_deposit-Keeps :
      (s : MemoryStackSubstate) (a : H160) (v : ℕ) (b : Backend) (c : Changed)
      → Keeps s c.1
      → Keeps s (then_deposit a v b c).1
  unfolding then_deposit
  then_deposit-Keeps s a v b (err e, t) k = k
  then_deposit-Keeps s a v b (ok u, t) k = then k (deposit-Keeps t a v b)

  pub transfer-Keeps :
      (s : MemoryStackSubstate) (t : Transfer) (b : Backend) → Keeps s (transfer s t b).1
  unfolding transfer
  transfer-Keeps s t b =
      then_deposit-Keeps s t.target t.value b _ (withdraw-Keeps s t.source t.value b)

  pub inc_nonce-Keeps :
      (s t : MemoryStackSubstate) (a : H160) (b : Backend) → inc_nonce s a b ≡ some t → Keeps s t
  unfolding inc_nonce
  inc_nonce-Keeps s t a b =
      elim (Option-cases (U.checked_add (account_mut s a b).0.basic.nonce 1)) [
        | inl e ↦ rw (e, inc_nonce) (λ h. ground arith)
        | inr (nonce, e) ↦
            rw (e, inc_nonce) (λ h. subst (Keeps s) (some-injective h) (search update-Keeps))
      ]

pub set_code-Keeps :
    (s : MemoryStackSubstate) (a : H160) (c : List ℕ) (b : Backend) → Keeps s (set_code s a c b)
unfolding set_code
set_code-Keeps s a c b = search update-Keeps

pub reset_balance-Keeps :
    (s : MemoryStackSubstate) (a : H160) (b : Backend) → Keeps s (reset_balance s a b)
unfolding reset_balance
reset_balance-Keeps s a b = search update-Keeps

pub set_storage-Keeps :
    (s : MemoryStackSubstate) (a : H160) (k v : H256) → Keeps s (set_storage s a k v)
unfolding set_storage
set_storage-Keeps s a k v = record { parents = refl; metadata = refl; sorted = λ h. h }

pub log-Keeps :
    (s : MemoryStackSubstate) (a : H160) (topics : List H256) (bytes : List ℕ)
    → Keeps s (log s a topics bytes)
unfolding log
log-Keeps s a topics bytes = record { parents = refl; metadata = refl; sorted = λ h. h }

pub set_deleted-Keeps : (s : MemoryStackSubstate) (a : H160) → Keeps s (set_deleted s a)
unfolding set_deleted
set_deleted-Keeps s a = record { parents = refl; metadata = refl; sorted = λ h. h }
