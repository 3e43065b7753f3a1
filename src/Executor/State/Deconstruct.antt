-- ===== src/Executor/State/Deconstruct.antt =====
-- src/executor/stack/state.rs: the changes that the root substate is turned into.
pub mod Changes
pub mod Addresses
use sputnikvm.Base.{List, [], ◌∷◌, ◌++◌, Option, none, some, if◌then◌else◌}
use sputnikvm.Base.Key.{bytes_eq, bytes_key, pair_key}
use sputnikvm.Base.Map
use sputnikvm.Base.Map.{Map, Set}
use sputnikvm.PrimitiveTypes.{H160, H256}
use sputnikvm.Backend.{Log, Apply, modify, delete, Backend}
use sputnikvm.Executor.State.{MemoryStackAccount, MemoryStackSubstate}
use sputnikvm.Executor.State.Change.{account_mut}

-- The two loops that collect the addresses.
pub account_addresses : Map H160 MemoryStackAccount → Set H160
account_addresses [] = []
account_addresses ((address, account) ∷ m) = Map.insert (account_addresses m) address tt

pub storage_addresses : Map (H160 × H256) H256 → Set H160 → Set H160
storage_addresses [] addresses = addresses
storage_addresses (((address, key), value) ∷ m) addresses =
    Map.insert (storage_addresses m addresses) address tt

-- The loop that collects the storage of an address.
pub storage_at : H160 → Map (H160 × H256) H256 → Map H256 H256
storage_at address [] = []
storage_at address (((oa, ok), ov) ∷ m) =
    let rest = storage_at address m in if bytes_eq oa address then Map.insert rest ok ov else rest

abbrev pub modify_with : H160 → Map H256 H256 → MemoryStackAccount → Apply
modify_with address storage account =
    modify address account.basic account.code storage account.reset

-- The loop over the addresses, in which `account_mut` changes the substate.
pub modifies : MemoryStackSubstate → Backend → Set H160 → List Apply
unfolding storage_at
modifies s backend [] = []
modifies s backend ((address, u) ∷ addresses) =
    let (account, inserted) = account_mut s address backend in
    let rest = modifies s backend addresses in
    let later = modifies inserted backend addresses in
    if Map.contains_key s.top.deletes address
    then rest
    else modify_with address (storage_at address s.top.storages) account ∷ later

-- The loop over the deleted addresses.
pub deletions : Set H160 → List Apply
deletions [] = []
deletions ((address, u) ∷ deletes) = delete address ∷ deletions deletes

-- `none` where the assertion fails: the substate is not the root.
unfoldable pub deconstruct : MemoryStackSubstate → Backend → Option (List Apply × List Log)
unfolding account_addresses storage_addresses modifies deletions
deconstruct s backend = elim s.parents [
  | parent ∷ rest ↦ none
  | [] ↦
      let addresses = storage_addresses s.top.storages (account_addresses s.top.accounts) in
      some (modifies s backend addresses ++ deletions s.top.deletes, s.top.logs)
]
