-- ===== src/Runtime/Config.antt =====
-- runtime/src/lib.rs: the configuration of a hard fork.
use sputnikvm.Base.{ℕ, Bool, true, false, Option, none, some}
use sputnikvm.Base.Int.{ℤ, pos}
use sputnikvm.PrimitiveTypes.{usize_max}

pub record Config : Type 0 where
  pub gas_ext_code : ℕ
  pub gas_ext_code_hash : ℕ
  pub gas_sstore_set : ℕ
  pub gas_sstore_reset : ℕ
  pub refund_sstore_clears : ℤ
  pub gas_balance : ℕ
  pub gas_sload : ℕ
  pub gas_suicide : ℕ
  pub gas_suicide_new_account : ℕ
  pub gas_call : ℕ
  pub gas_expbyte : ℕ
  pub gas_transaction_create : ℕ
  pub gas_transaction_call : ℕ
  pub gas_transaction_zero_data : ℕ
  pub gas_transaction_non_zero_data : ℕ
  pub sstore_gas_metering : Bool
  pub sstore_revert_under_stipend : Bool
  pub err_on_call_with_more_gas : Bool
  pub call_l64_after_gas : Bool
  pub empty_considered_exists : Bool
  pub create_increase_nonce : Bool
  pub stack_limit : ℕ
  pub memory_limit : ℕ
  pub call_stack_limit : ℕ
  pub create_contract_limit : Option ℕ
  pub call_stipend : ℕ
  pub has_delegate_call : Bool
  pub has_create2 : Bool
  pub has_revert : Bool
  pub has_return_data : Bool
  pub has_bitwise_shifting : Bool
  pub has_chain_id : Bool
  pub has_self_balance : Bool
  pub has_ext_code_hash : Bool
  pub estimate : Bool

-- `Config::frontier`
abbrev pub frontier : Config
frontier = record {
  gas_ext_code = 20;
  gas_ext_code_hash = 20;
  gas_balance = 20;
  gas_sload = 50;
  gas_sstore_set = 20000;
  gas_sstore_reset = 5000;
  refund_sstore_clears = pos 15000;
  gas_suicide = 0;
  gas_suicide_new_account = 0;
  gas_call = 40;
  gas_expbyte = 10;
  gas_transaction_create = 21000;
  gas_transaction_call = 21000;
  gas_transaction_zero_data = 4;
  gas_transaction_non_zero_data = 68;
  sstore_gas_metering = false;
  sstore_revert_under_stipend = false;
  err_on_call_with_more_gas = true;
  empty_considered_exists = true;
  create_increase_nonce = false;
  call_l64_after_gas = false;
  stack_limit = 1024;
  memory_limit = usize_max;
  call_stack_limit = 1024;
  create_contract_limit = none;
  call_stipend = 2300;
  has_delegate_call = false;
  has_create2 = false;
  has_revert = false;
  has_return_data = false;
  has_bitwise_shifting = false;
  has_chain_id = false;
  has_self_balance = false;
  has_ext_code_hash = false;
  estimate = false;
}

-- `Config::istanbul`
abbrev pub istanbul : Config
istanbul = record {
  gas_ext_code = 700;
  gas_ext_code_hash = 700;
  gas_balance = 700;
  gas_sload = 800;
  gas_sstore_set = 20000;
  gas_sstore_reset = 5000;
  refund_sstore_clears = pos 15000;
  gas_suicide = 5000;
  gas_suicide_new_account = 25000;
  gas_call = 700;
  gas_expbyte = 50;
  gas_transaction_create = 53000;
  gas_transaction_call = 21000;
  gas_transaction_zero_data = 4;
  gas_transaction_non_zero_data = 16;
  sstore_gas_metering = true;
  sstore_revert_under_stipend = true;
  err_on_call_with_more_gas = false;
  empty_considered_exists = false;
  create_increase_nonce = true;
  call_l64_after_gas = true;
  stack_limit = 1024;
  memory_limit = usize_max;
  call_stack_limit = 1024;
  create_contract_limit = some 0x6000;
  call_stipend = 2300;
  has_delegate_call = true;
  has_create2 = true;
  has_revert = true;
  has_return_data = true;
  has_bitwise_shifting = true;
  has_chain_id = true;
  has_self_balance = true;
  has_ext_code_hash = true;
  estimate = false;
}
