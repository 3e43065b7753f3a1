-- ===== src/Executor/StackState/Applied.antt =====
-- src/executor/stack/state.rs and src/backend/memory.rs: the changes of a state, applied to the backend
-- that is under it.
use sputnikvm.Base.{
  Bool, false, List, [], ◌++◌, Option, none, some, ◌≡◌, refl, ◌∙◌, if◌then◌else◌, arith, unwrap_or,
  Bool-cases, inl, inr,
}
use sputnikvm.Base.Key.{bytes_key, pair_key}
use sputnikvm.Base.Map
use sputnikvm.Base.Map.Sorted.{IsSorted}
use sputnikvm.PrimitiveTypes.{U256Ops, H160, H256, zero_h256}
use sputnikvm.Backend.{default_basic, Apply, Backend}
use sputnikvm.Backend.Memory as Memory
use sputnikvm.Backend.Memory.{
  MemoryBackend, MemoryAccount, as_backend, basic_of, code_of, storage_of, or_zero, entry, modified,
  apply_all,
}
use sputnikvm.Backend.Memory.Applied.{apply_all-append, modified-storage}
use sputnikvm.Executor.State.{Frame, MemoryStackSubstate}
use sputnikvm.Executor.State.Known.{
  known_account, known_account_in, known_basic, known_code, known_storage, known_storage_in,
  deleted, deleted_in, is_reset,
}
use sputnikvm.Executor.State.Change.Effect.{account_at, account_mut_known}
use sputnikvm.Executor.State.Deconstruct as Deconstruct
use sputnikvm.Executor.State.Deconstruct.{modifies, deletions}
use sputnikvm.Executor.State.Deconstruct.Changes.{
  modifies-changes, account_after, get-changes, get-deletions, get-storage_at, storage_at-IsSorted,
}
use sputnikvm.Executor.State.Deconstruct.Addresses.{
  addresses_of, addresses_of-IsSorted, addresses_of-get,
}
use sputnikvm.Executor.StackState.{MemoryStackState, basic, code, storage, deconstruct}

-- The storage of an account of a backend is sorted.
abbrev pub HasSorted : Option MemoryAccount → Type 0
HasSorted none = Unit {0}
HasSorted (some account) = IsSorted account.storage

abbrev pub root : Frame → MemoryStackSubstate
root f = record { top = f; parents = [] }

module _ (f : Frame) (b : Backend) (a : H160) where
  -- The account of a backend that had `o` is what was seen of it.
  account_after-basic :
      (o : Option MemoryAccount)
      → basic_of (some (account_after (root f) b a o))
        ≡ unwrap_or (known_basic (root f) a) (b.basic a)
  unfolding modified
  account_after-basic o = (account_mut_known (root f) a b).0

  account_after-code :
      (o : Option MemoryAccount)
      → code_of (some (account_after (root f) b a o))
        ≡ unwrap_or (known_code (root f) a) (code_of o)
  unfolding modified
  account_after-code none = ground (arith, account_mut_known (root f) a b)
  account_after-code (some account) = ground (arith, account_mut_known (root f) a b)

  account_after-storage :
      (o : Option MemoryAccount) (k : H256)
      → HasSorted o
      → storage_of (some (account_after (root f) b a o)) k
        ≡ unwrap_or (known_storage (root f) a k) (storage_of o k)
  unfolding known_storage known_storage_in
  account_after-storage o k s =
      let account = account_at (root f) a b in
      modified-storage (entry o) account.basic account.code (Deconstruct.storage_at a f.storages)
        account.reset k (storage_at-IsSorted a f.storages) (entry-sorted o s)
      ∙ rw (get-storage_at a f.storages k, (account_mut_known (root f) a b).2)
          (over (Map.get f.storages (a, k)) (is_reset (Map.get f.accounts a)))
    where
      entry-sorted : (o : Option MemoryAccount) → HasSorted o → IsSorted (entry o).storage
      entry-sorted none s = tt
      entry-sorted (some account) s = s

      over :
          (v : Option H256) (reset : Bool)
          → unwrap_or v (if reset then zero_h256 else or_zero (Map.get (entry o).storage k))
            ≡ unwrap_or (Map.or_else v (if reset then some zero_h256 else none)) (storage_of o k)
      over v reset = ground (arith, Map.get-empty {V = H256} k)

  -- What a backend has at the address, of which the state was `o`.
  abbrev seen_after : Option MemoryAccount → Option MemoryAccount
  seen_after o =
      if Map.contains_key f.deletes a
      then none
      else if Map.contains_key (addresses_of (root f)) a
      then some (account_after (root f) b a o)
      else o

  get-values :
      (st : Map.Map H160 MemoryAccount)
      → Map.get
          (apply_all false st (modifies (root f) b (addresses_of (root f)) ++ deletions f.deletes))
          a
        ≡ seen_after (Map.get st a)
  get-values st =
      rw
        (
          apply_all-append st (modifies (root f) b (addresses_of (root f))) (deletions f.deletes),
          get-deletions f.deletes a
              (apply_all false st (modifies (root f) b (addresses_of (root f)))),
          modifies-changes (root f) b (addresses_of (root f)),
        )
        (elim (Bool-cases (Map.contains_key f.deletes a)) [
          | inl e ↦ rw e refl
          | inr e ↦ rw e (
              get-changes (root f) b a (addresses_of (root f)) st (addresses_of-IsSorted (root f))
                e)
        ])

module _ ⦃U : U256Ops⦄ (m : MemoryBackend) (f : Frame) where
  -- The root substate over a memory backend.
  abbrev pub over_memory : MemoryStackState
  over_memory = record { backend = as_backend m; substate = root f }

  -- The changes of the root substate.
  abbrev pub root_values : List Apply
  root_values = modifies (root f) (as_backend m) (addresses_of (root f)) ++ deletions f.deletes

module _ ⦃U : U256Ops⦄ (m : MemoryBackend) (f : Frame) (a : H160) (k : H256) where
  -- Whether the backend `after` has what was seen of an account and of a place of its storage, or nothing
  -- where the account is deleted.
  abbrev pub AgreesAt : MemoryBackend → Type 0
  AgreesAt after =
      (Memory.basic after a
        ≡ (if deleted (root f) a then default_basic else basic (over_memory m f) a))
      × (Memory.code after a ≡ (if deleted (root f) a then [] else code (over_memory m f) a))
      × (Memory.storage after a k
          ≡ (if deleted (root f) a then zero_h256 else storage (over_memory m f) a k))

  -- By what the backend has at the address.
  abbrev AgreesBy : Option MemoryAccount → Type 0
  AgreesBy o =
      (basic_of o ≡ (if deleted (root f) a then default_basic else basic (over_memory m f) a))
      × (code_of o ≡ (if deleted (root f) a then [] else code (over_memory m f) a))
      × (storage_of o k ≡ (if deleted (root f) a then zero_h256 else storage (over_memory m f) a k))

  -- Of an address that the frame has not changed nothing is known.
  unknown :
      Map.contains_key (addresses_of (root f)) a ≡ false
      → (known_account (root f) a ≡ none) × (known_storage (root f) a k ≡ none)
  unfolding known_account known_account_in known_storage known_storage_in
  unknown i =
      let absent : Map.get (addresses_of (root f)) a ≡ none =
        ground (arith, Map.contains_key_lem (addresses_of (root f)) a) in
      ground (arith, addresses_of-get (root f) a k absent)

  seen_after-AgreesBy :
      HasSorted (Map.get m.state a) → AgreesBy (seen_after f (as_backend m) a (Map.get m.state a))
  unfolding deleted deleted_in basic code storage known_basic known_code Memory.basic Memory.code
      Memory.storage as_backend
  seen_after-AgreesBy s = elim (Bool-cases (Map.contains_key f.deletes a)) [
    | inl e ↦ rw e (refl, refl, refl)
    | inr e ↦ elim (Bool-cases (Map.contains_key (addresses_of (root f)) a)) [
      | inl i ↦
          rw (e, i)
            (
              account_after-basic f (as_backend m) a (Map.get m.state a),
              account_after-code f (as_backend m) a (Map.get m.state a),
              account_after-storage f (as_backend m) a (Map.get m.state a) k s,
            )
      | inr i ↦ let (ka, ks) = unknown i in rw (e, i, ka, ks) (refl, refl, refl)
    ]
  ]

  -- The root substate over a memory backend, whose account at an address has its storage sorted, is always
  -- turned into changes and its logs. The backend to which these are applied, empty accounts left in place,
  -- has the balance, the nonce, the code and each value of the storage that were seen at the address
  -- through the state, or none of them if the account is deleted, and the logs after its own.
  pub deconstruct-apply :
      HasSorted (Map.get m.state a)
      → (deconstruct (over_memory m f) ≡ some ((root_values m f), f.logs))
        × AgreesAt (Memory.apply m (root_values m f) f.logs false)
        × ((Memory.apply m (root_values m f) f.logs false).logs ≡ m.logs ++ f.logs)
  unfolding deconstruct Deconstruct.deconstruct Memory.apply Memory.basic Memory.code Memory.storage
  deconstruct-apply s =
      (refl, rw (get-values f (as_backend m) a m.state) (seen_after-AgreesBy s), refl)
