-- ===== src/Executor/State/Deconstruct/Changes.antt =====
-- src/executor/stack/state.rs: the changes of the root substate, and what they make of the accounts.
use sputnikvm.Base.{
  false, List, [], ◌∷◌, Option, none, some, ◌≡◌, refl, sym, ◌∙◌, if◌then◌else◌, arith, Bool-cases,
  inl, inr,
}
use sputnikvm.Base.Key.{bytes_eq, bytes_eq_iff, bytes_key, pair_key}
use sputnikvm.Base.Map
use sputnikvm.Base.Map.{Map, Set}
use sputnikvm.Base.Map.Sorted.{IsSorted, insert-IsSorted, get-IsAfter}
use sputnikvm.PrimitiveTypes.{H160, H256}
use sputnikvm.Backend.{Basic, Apply, Backend}
use sputnikvm.Backend.Memory.{MemoryAccount, entry, modified, apply_one, apply_all}
use sputnikvm.Backend.Memory.Applied.{get-apply_modify}
use sputnikvm.Executor.State.{MemoryStackAccount, MemoryStackSubstate}
use sputnikvm.Executor.State.Known.{known_account}
use sputnikvm.Executor.State.Change.{account_mut, account_or_insert, fresh, touch}
use sputnikvm.Executor.State.Change.Effect.{
  account_at, get-touch, touch-known_account, touch-storages, touch-deletes,
}
use sputnikvm.Executor.State.Deconstruct.{storage_at, modify_with, modifies, deletions}

pub get-storage_at :
    (a : H160) (m : Map (H160 × H256) H256) (k : H256)
    → Map.get (storage_at a m) k ≡ Map.get m (a, k)
unfolding storage_at
get-storage_at a [] k = Map.get-empty {V = H256} k ∙ sym (Map.get-empty {V = H256} (a, k))
get-storage_at a (((oa, ok), ov) ∷ m) k = ground (
  arith,
  get-storage_at a m k,
  Map.get-insert (storage_at a m) ok k ov,
  Map.get-cons m (oa, ok) (a, k) ov,
  bytes_eq_iff oa a,
  bytes_eq_iff a oa,
)

pub storage_at-IsSorted : (a : H160) (m : Map (H160 × H256) H256) → IsSorted (storage_at a m)
unfolding storage_at
storage_at-IsSorted a [] = tt
storage_at-IsSorted a (((oa, ok), ov) ∷ m) = elim (Bool-cases (bytes_eq oa a)) [
  | inl e ↦ rw (e, storage_at) (insert-IsSorted (storage_at a m) ok ov (storage_at-IsSorted a m))
  | inr e ↦ rw (e, storage_at) (storage_at-IsSorted a m)
]

-- The account that `account_mut` finds, from what is known.
abbrev found : Option MemoryStackAccount → Option MemoryStackAccount → Basic → MemoryStackAccount
found (some account) known basic = account
found none known basic = fresh known basic

account_at-found :
    (s : MemoryStackSubstate) (j : H160) (b : Backend)
    → account_at s j b ≡ found (Map.get s.top.accounts j) (known_account s j) (b.basic j)
unfolding account_mut account_or_insert
account_at-found s j b = ground arith

account_at-touch :
    (s : MemoryStackSubstate) (a j : H160) (b : Backend)
    → account_at (touch s a b) j b ≡ account_at s j b
account_at-touch s a j b = rw (account_at-found (touch s a b) j b) (
    ground (
      arith,
      get-touch s a j b,
      touch-known_account s a j b,
      account_at-found s j b,
      bytes_eq_iff a j,
    ))

-- The changes of the addresses, from a substate that stays as it is.
abbrev pub change_of : MemoryStackSubstate → Backend → H160 → Apply
change_of s b a = modify_with a (storage_at a s.top.storages) (account_at s a b)

pub changes : MemoryStackSubstate → Backend → Set H160 → List Apply
changes s b [] = []
changes s b ((a, u) ∷ addresses) =
    let rest = changes s b addresses in
    if Map.contains_key s.top.deletes a then rest else change_of s b a ∷ rest

changes-touch :
    (s : MemoryStackSubstate) (a : H160) (b : Backend) (addresses : Set H160)
    → changes (touch s a b) b addresses ≡ changes s b addresses
unfolding changes
changes-touch s a b [] = refl
changes-touch s a b ((j, u) ∷ addresses) =
    rw
      (
        account_at-touch s a j b,
        changes-touch s a b addresses,
        touch-storages s a b,
        touch-deletes s a b,
      )
      refl

-- The loop changes the substate, but not what it reads.
pub modifies-changes :
    (s : MemoryStackSubstate) (b : Backend) (addresses : Set H160)
    → modifies s b addresses ≡ changes s b addresses
unfolding modifies changes touch
modifies-changes s b [] = refl
modifies-changes s b ((j, u) ∷ addresses) =
    rw
      (
        modifies-changes s b addresses,
        modifies-changes (touch s j b) b addresses,
        changes-touch s j b addresses,
      )
      refl

-- What a backend makes of the account by the change of its address.
abbrev pub account_after :
    MemoryStackSubstate → Backend → H160 → Option MemoryAccount → MemoryAccount
account_after s b a o =
    modified (entry o) (account_at s a b).basic (account_at s a b).code
      (storage_at a s.top.storages) (account_at s a b).reset

pub get-changes :
    (s : MemoryStackSubstate) (b : Backend) (a : H160) (addresses : Set H160)
    (st : Map H160 MemoryAccount)
    → IsSorted addresses
    → Map.contains_key s.top.deletes a ≡ false
    → Map.get (apply_all false st (changes s b addresses)) a ≡ (
        if Map.contains_key addresses a
        then some (account_after s b a (Map.get st a))
        else Map.get st a)
unfolding changes apply_all
get-changes s b a [] st sorted kept =
    ground (arith, Map.contains_key_lem {V = Unit {0}} [] a, Map.get-empty {V = Unit {0}} a)
get-changes s b a ((j, u) ∷ addresses) st sorted kept =
    elim (Bool-cases (Map.contains_key s.top.deletes j)) [
      | inl e ↦
          rw (e, changes)
            (ground (
              arith,
              get-changes s b a addresses st sorted.1 kept,
              bytes_eq_iff j a,
              e,
              Map.contains_key_lem addresses a,
              Map.contains_key_lem ((j, u) ∷ addresses) a,
              Map.get-cons addresses j a u,
            ))
      | inr e ↦
          rw (e, changes)
            (ground (
              arith,
              get-changes s b a addresses (apply_one false st (change_of s b j)) sorted.1 kept,
              bytes_eq_iff j a,
              get-apply_modify st j a (account_at s j b).basic (account_at s j b).code
                  (storage_at j s.top.storages) (account_at s j b).reset,
              get-IsAfter j addresses sorted.0 sorted.1,
              Map.contains_key_lem addresses a,
              Map.contains_key_lem ((j, u) ∷ addresses) a,
              Map.get-cons addresses j a u,
            ))
    ]

-- The deleted accounts are removed, and no other.
pub get-deletions :
    (deletes : Set H160) (a : H160) (st : Map H160 MemoryAccount)
    → Map.get (apply_all false st (deletions deletes)) a
      ≡ (if Map.contains_key deletes a then none else Map.get st a)
unfolding deletions apply_all apply_one
get-deletions [] a st =
    ground (arith, Map.contains_key_lem {V = Unit {0}} [] a, Map.get-empty {V = Unit {0}} a)
get-deletions ((j, u) ∷ deletes) a st = ground (
  arith,
  get-deletions deletes a (Map.remove st j),
  Map.get-remove st j a,
  Map.contains_key_lem deletes a,
  Map.contains_key_lem ((j, u) ∷ deletes) a,
  Map.get-cons deletes j a u,
)
