-- ===== src/Backend/Memory.antt =====
-- src/backend/memory.rs: a backend that holds its state in maps.
pub mod Applied
use sputnikvm.Base.{
  ℕ, Bool, ◌&&◌, List, [], ◌∷◌, ◌++◌, Option, none, some, leb, ◌==◌, if◌then◌else◌, length, get_or,
}
use sputnikvm.Base.Key.{bytes_key}
use sputnikvm.Base.Map
use sputnikvm.Base.Map.{Map}
use sputnikvm.PrimitiveTypes.{U256Ops, H160, H256, zero_h256, h256_eq}
use sputnikvm.Backend.{Basic, default_basic, Log, Apply, modify, delete, Backend}

pub record MemoryVicinity : Type 0 where
  pub gas_price : ℕ
  pub origin : H160
  pub chain_id : ℕ
  pub block_hashes : List H256
  pub block_number : ℕ
  pub block_coinbase : H160
  pub block_timestamp : ℕ
  pub block_difficulty : ℕ
  pub block_gas_limit : ℕ

pub record MemoryAccount : Type 0 where
  pub nonce : ℕ
  pub balance : ℕ
  pub storage : Map H256 H256
  pub code : List ℕ

-- `MemoryAccount::default()`
abbrev pub default_account : MemoryAccount
default_account = record { nonce = 0; balance = 0; storage = []; code = [] }

pub record MemoryBackend : Type 0 where
  pub vicinity : MemoryVicinity
  pub state : Map H160 MemoryAccount
  pub logs : List Log

unfoldable pub new : MemoryVicinity → Map H160 MemoryAccount → MemoryBackend
new vicinity state = record { vicinity = vicinity; state = state; logs = [] }

pub exists : MemoryBackend → H160 → Bool
exists b address = Map.contains_key b.state address

abbrev pub basic_of : Option MemoryAccount → Basic
basic_of none = default_basic
basic_of (some a) = record { balance = a.balance; nonce = a.nonce }

unfoldable pub basic : MemoryBackend → H160 → Basic
basic b address = basic_of (Map.get b.state address)

abbrev pub code_of : Option MemoryAccount → List ℕ
code_of none = []
code_of (some a) = a.code

unfoldable pub code : MemoryBackend → H160 → List ℕ
code b address = code_of (Map.get b.state address)

-- `unwrap_or(H256::default())`
abbrev pub or_zero : Option H256 → H256
or_zero none = zero_h256
or_zero (some v) = v

abbrev pub storage_of : Option MemoryAccount → H256 → H256
storage_of none index = zero_h256
storage_of (some a) index = or_zero (Map.get a.storage index)

unfoldable pub storage : MemoryBackend → H160 → H256 → H256
storage b address index = storage_of (Map.get b.state address) index

pub original_storage : MemoryBackend → H160 → H256 → Option H256
original_storage b address index = some (storage b address index)

module _ ⦃U : U256Ops⦄ where
  pub block_hash : MemoryVicinity → ℕ → H256
  block_hash v number =
      if leb v.block_number number
      then zero_h256
      else if leb (length v.block_hashes) (U.sub (U.sub v.block_number number) 1)
      then zero_h256
      else get_or v.block_hashes (U.as_usize (U.sub (U.sub v.block_number number) 1)) zero_h256

  -- `impl Backend for MemoryBackend`
  unfoldable pub as_backend : MemoryBackend → Backend
  as_backend b = record {
    gas_price = b.vicinity.gas_price;
    origin = b.vicinity.origin;
    block_hash = block_hash b.vicinity;
    block_number = b.vicinity.block_number;
    block_coinbase = b.vicinity.block_coinbase;
    block_timestamp = b.vicinity.block_timestamp;
    block_difficulty = b.vicinity.block_difficulty;
    block_gas_limit = b.vicinity.block_gas_limit;
    chain_id = b.vicinity.chain_id;
    exists = exists b;
    basic = basic b;
    code = code b;
    storage = storage b;
    original_storage = original_storage b;
  }

-- The loop that collects the indices of zero values.
pub zeros : Map H256 H256 → List H256
zeros [] = []
zeros ((k, v) ∷ m) = let rest = zeros m in if h256_eq v zero_h256 then k ∷ rest else rest

-- The loop over the new storage values.
pub write_storage : Map H256 H256 → List (H256 × H256) → Map H256 H256
write_storage m [] = m
write_storage m ((index, value) ∷ rest) =
    write_storage (if h256_eq value zero_h256 then Map.remove m index else Map.insert m index value)
      rest

-- `if let Some(code) = code { account.code = code }`
abbrev pub code_after : Option (List ℕ) → List ℕ → List ℕ
code_after none old = old
code_after (some c) old = c

-- `entry(address).or_insert(Default::default())`
abbrev pub entry : Option MemoryAccount → MemoryAccount
entry none = default_account
entry (some a) = a

unfoldable pub modified :
    MemoryAccount → Basic → Option (List ℕ) → List (H256 × H256) → Bool → MemoryAccount
modified account basic code storage reset_storage =
    let kept = if reset_storage then [] else account.storage in
    record {
      nonce = basic.nonce;
      balance = basic.balance;
      storage = write_storage (Map.remove_all kept (zeros kept)) storage;
      code = code_after code account.code;
    }

is_empty : MemoryAccount → Bool
is_empty a = (a.balance == 0) && (a.nonce == 0) && (length a.code == 0)

-- One round of the loop of `apply`.
unfoldable pub apply_one : Bool → Map H160 MemoryAccount → Apply → Map H160 MemoryAccount
unfolding zeros write_storage modified is_empty
apply_one delete_empty state (delete address) = Map.remove state address
apply_one delete_empty state (modify address basic code storage reset_storage) =
    let account = modified (entry (Map.get state address)) basic code storage reset_storage in
    let inserted = Map.insert state address account in
    if is_empty account && delete_empty then Map.remove inserted address else inserted

unfoldable pub apply_all : Bool → Map H160 MemoryAccount → List Apply → Map H160 MemoryAccount
apply_all delete_empty state [] = state
apply_all delete_empty state (a ∷ rest) =
    apply_all delete_empty (apply_one delete_empty state a) rest

unfoldable pub apply : MemoryBackend → List Apply → List Log → Bool → MemoryBackend
unfolding apply_one apply_all
apply b values logs delete_empty = record b {
  state = apply_all delete_empty b.state values;
  logs = b.logs ++ logs;
}
