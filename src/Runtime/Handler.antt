-- ===== src/Runtime/Handler.antt =====
-- runtime/src/handler.rs: what a handler answers without changing.
use sputnikvm.Base.{ℕ, Bool, List}
use sputnikvm.PrimitiveTypes.{H160, H256}

pub record Handler : Type 0 where
  pub balance : H160 → ℕ
  pub code_size : H160 → ℕ
  pub code_hash : H160 → H256
  pub code : H160 → List ℕ
  pub storage : H160 → H256 → H256
  pub original_storage : H160 → H256 → H256
  pub gas_left : ℕ
  pub gas_price : ℕ
  pub origin : H160
  pub block_hash : ℕ → H256
  pub block_number : ℕ
  pub block_coinbase : H160
  pub block_timestamp : ℕ
  pub block_difficulty : ℕ
  pub block_gas_limit : ℕ
  pub chain_id : ℕ
  pub exists : H160 → Bool
  pub deleted : H160 → Bool
