-- ===== src/Gasometer/Cost.antt =====
-- gasometer/src/lib.rs: what a cost is.
pub mod Join
use sputnikvm.Base.{ℕ, suc, Bool, List, [], ◌∷◌, ◌-◌, leb, ◌==◌, if◌then◌else◌, length}
use sputnikvm.PrimitiveTypes.{U256Ops, H256}

pub data GasCost : Type 0 where
  zero base very_low low invalid : GasCost
  ext_code_size balance block_hash ext_code_hash : GasCost
  -- The value, the gas, and whether the target exists.
  call call_code : ℕ → ℕ → Bool → GasCost
  -- The gas, and whether the target exists.
  delegate_call static_call : ℕ → Bool → GasCost
  -- The value, whether the target exists, and whether it has already been removed.
  suicide : ℕ → Bool → Bool → GasCost
  -- The original, the current and the new value.
  s_store : H256 → H256 → H256 → GasCost
  sha3 : ℕ → GasCost
  -- The number of topics, and the length of the data.
  log : ℕ → ℕ → GasCost
  ext_code_copy very_low_copy : ℕ → GasCost
  exp : ℕ → GasCost
  create : GasCost
  create2 : ℕ → GasCost
  s_load : GasCost

pub record MemoryCost : Type 0 where
  pub offset : ℕ
  pub len : ℕ

-- The lengths of the zeros and of the other bytes of the data.
pub data TransactionCost : Type 0 where
  call create : ℕ → ℕ → TransactionCost

module _ ⦃U : U256Ops⦄ where
  pub join : MemoryCost → MemoryCost → MemoryCost
  join self other =
      if self.len == 0
      then other
      else if other.len == 0
      then self
      else if leb (U.saturating_add other.offset other.len) (U.saturating_add self.offset self.len)
      then self
      else other

zeros : List ℕ → ℕ
zeros [] = 0
zeros (b ∷ bs) = let rest = zeros bs in if b == 0 then suc rest else rest

pub call_transaction_cost : List ℕ → TransactionCost
unfolding zeros
call_transaction_cost bytes = call (zeros bytes) (length bytes - zeros bytes)

pub create_transaction_cost : List ℕ → TransactionCost
unfolding zeros
create_transaction_cost bytes = create (zeros bytes) (length bytes - zeros bytes)
