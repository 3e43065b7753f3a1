-- ===== src/Executor/State/Known.antt =====
-- src/executor/stack/state.rs: what a substate and its parents know.
use sputnikvm.Base.{
  ℕ, Bool, true, false, ◌&&◌, not, List, [], ◌∷◌, Option, none, some, ◌==◌, if◌then◌else◌, length,
}
use sputnikvm.Base.Key.{bytes_key, pair_key}
use sputnikvm.Base.Map
use sputnikvm.PrimitiveTypes.{H160, H256, zero_h256}
use sputnikvm.Backend.{Basic}
use sputnikvm.Executor.State.{MemoryStackAccount, Frame, MemoryStackSubstate}

-- The frames, the current one first.
abbrev pub frames : MemoryStackSubstate → List Frame
frames s = s.top ∷ s.parents

-- What the account of a frame answers, or else what the parents do.
unfoldable pub known_account_in : List Frame → H160 → Option MemoryStackAccount
known_account_in [] address = none
known_account_in (f ∷ fs) address =
    Map.or_else (Map.get f.accounts address) (known_account_in fs address)

unfoldable pub known_account : MemoryStackSubstate → H160 → Option MemoryStackAccount
known_account s address = known_account_in (frames s) address

abbrev pub basic_of : Option MemoryStackAccount → Option Basic
basic_of none = none
basic_of (some account) = some account.basic

unfoldable pub known_basic : MemoryStackSubstate → H160 → Option Basic
known_basic s address = basic_of (known_account s address)

abbrev pub code_of : Option MemoryStackAccount → Option (List ℕ)
code_of none = none
code_of (some account) = account.code

unfoldable pub known_code : MemoryStackSubstate → H160 → Option (List ℕ)
known_code s address = code_of (known_account s address)

abbrev pub empty_by_code : MemoryStackAccount → Option (List ℕ) → Option Bool
empty_by_code account none = none
empty_by_code account (some code) =
    some ((account.basic.balance == 0) && (account.basic.nonce == 0) && (length code == 0))

abbrev pub empty_of : Option MemoryStackAccount → Option Bool
empty_of none = none
empty_of (some account) =
    if not (account.basic.balance == 0)
    then some false
    else if not (account.basic.nonce == 0)
    then some false
    else empty_by_code account account.code

unfoldable pub known_empty : MemoryStackSubstate → H160 → Option Bool
known_empty s address = empty_of (known_account s address)

-- Whether the account of a frame is there and reset.
abbrev pub is_reset : Option MemoryStackAccount → Bool
is_reset none = false
is_reset (some account) = account.reset

unfoldable pub known_storage_in : List Frame → H160 → H256 → Option H256
known_storage_in [] address key = none
known_storage_in (f ∷ fs) address key = Map.or_else (Map.get f.storages (address, key)) (
    let rest = known_storage_in fs address key in
    if is_reset (Map.get f.accounts address) then some zero_h256 else rest)

unfoldable pub known_storage : MemoryStackSubstate → H160 → H256 → Option H256
known_storage s address key = known_storage_in (frames s) address key

unfoldable pub known_original_storage_in : List Frame → H160 → H256 → Option H256
known_original_storage_in [] address key = none
known_original_storage_in (f ∷ fs) address key =
    let rest = known_original_storage_in fs address key in
    if is_reset (Map.get f.accounts address) then some zero_h256 else rest

unfoldable pub known_original_storage : MemoryStackSubstate → H160 → H256 → Option H256
known_original_storage s address key = known_original_storage_in (frames s) address key

unfoldable pub deleted_in : List Frame → H160 → Bool
deleted_in [] address = false
deleted_in (f ∷ fs) address =
    let rest = deleted_in fs address in if Map.contains_key f.deletes address then true else rest

unfoldable pub deleted : MemoryStackSubstate → H160 → Bool
deleted s address = deleted_in (frames s) address
