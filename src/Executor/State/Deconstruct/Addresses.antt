-- ===== src/Executor/State/Deconstruct/Addresses.antt =====
-- src/executor/stack/state.rs: the addresses that the root substate has changed.
use sputnikvm.Base.{[], ◌∷◌, none, ◌≡◌, arith}
use sputnikvm.Base.Key.{bytes_key, pair_key}
use sputnikvm.Base.Map
use sputnikvm.Base.Map.{Map, Set}
use sputnikvm.Base.Map.Sorted.{IsSorted, insert-IsSorted}
use sputnikvm.PrimitiveTypes.{H160, H256}
use sputnikvm.Executor.State.{MemoryStackAccount, MemoryStackSubstate}
use sputnikvm.Executor.State.Deconstruct.{account_addresses, storage_addresses}

account_addresses-IsSorted : (m : Map H160 MemoryStackAccount) → IsSorted (account_addresses m)
unfolding account_addresses
account_addresses-IsSorted [] = tt
account_addresses-IsSorted ((a, v) ∷ m) =
    insert-IsSorted (account_addresses m) a tt (account_addresses-IsSorted m)

-- The addresses of a frame that has changed.
abbrev pub addresses_of : MemoryStackSubstate → Set H160
addresses_of s = storage_addresses s.top.storages (account_addresses s.top.accounts)

storage_addresses-IsSorted :
    (m : Map (H160 × H256) H256) (addresses : Set H160)
    → IsSorted addresses
    → IsSorted (storage_addresses m addresses)
unfolding storage_addresses
storage_addresses-IsSorted [] addresses h = h
storage_addresses-IsSorted (((a, k), v) ∷ m) addresses h =
    insert-IsSorted (storage_addresses m addresses) a tt (storage_addresses-IsSorted m addresses h)

pub addresses_of-IsSorted : (s : MemoryStackSubstate) → IsSorted (addresses_of s)
addresses_of-IsSorted s =
    storage_addresses-IsSorted s.top.storages _ (account_addresses-IsSorted s.top.accounts)

account_addresses-get :
    (m : Map H160 MemoryStackAccount) (a : H160)
    → Map.get (account_addresses m) a ≡ none
    → Map.get m a ≡ none
unfolding account_addresses
account_addresses-get [] a h = Map.get-empty {V = MemoryStackAccount} a
account_addresses-get ((j, v) ∷ m) a h = ground (
  arith,
  account_addresses-get m a,
  Map.get-insert (account_addresses m) j a tt,
  Map.get-cons m j a v,
)

storage_addresses-get :
    (m : Map (H160 × H256) H256) (addresses : Set H160) (a : H160) (k : H256)
    → Map.get (storage_addresses m addresses) a ≡ none
    → (Map.get addresses a ≡ none) × (Map.get m (a, k) ≡ none)
unfolding storage_addresses
storage_addresses-get [] addresses a k h = (h, Map.get-empty {V = H256} (a, k))
storage_addresses-get (((j, i), v) ∷ m) addresses a k h = ground (
  arith,
  storage_addresses-get m addresses a k,
  Map.get-insert (storage_addresses m addresses) j a tt,
  Map.get-cons m (j, i) (a, k) v,
)

-- An address that is not among those has no account and no storage in the frame.
pub addresses_of-get :
    (s : MemoryStackSubstate) (a : H160) (k : H256)
    → Map.get (addresses_of s) a ≡ none
    → (Map.get s.top.accounts a ≡ none) × (Map.get s.top.storages (a, k) ≡ none)
addresses_of-get s a k h =
    let (h1, h2) = storage_addresses-get s.top.storages (account_addresses s.top.accounts) a k h in
    (account_addresses-get s.top.accounts a h1, h2)
