-- ===== src/Backend.antt =====
-- src/backend/mod.rs: what a backend knows, and the changes that are applied to it.
pub mod Memory
use sputnikvm.Base.{ℕ, Bool, List, Option}
use sputnikvm.PrimitiveTypes.{H160, H256}

pub record Basic : Type 0 where
  pub balance : ℕ
  pub nonce : ℕ

-- `Basic::default()`
abbrev pub default_basic : Basic
default_basic = record { balance = 0; nonce = 0 }

-- The fields of `ethereum::Log`.
pub record Log : Type 0 where
  pub address : H160
  pub topics : List H256
  pub bytes : List ℕ

-- `Modify` has the address, the basic information, the code, the storage and whether it is reset.
pub data Apply : Type 0 where
  modify : H160 → Basic → Option (List ℕ) → List (H256 × H256) → Bool → Apply
  delete : H160 → Apply

-- The trait, as the functions of a backend.
pub record Backend : Type 0 where
  pub gas_price : ℕ
  pub origin : H160
  pub block_hash : ℕ → H256
  pub block_number : ℕ
  pub block_coinbase : H160
  pub block_timestamp : ℕ
  pub block_difficulty : ℕ
  pub block_gas_limit : ℕ
  pub chain_id : ℕ
  pub exists : H160 → Bool
  pub basic : H160 → Basic
  pub code : H160 → List ℕ
  pub storage : H160 → H256 → H256
  pub original_storage : H160 → H256 → Option H256
