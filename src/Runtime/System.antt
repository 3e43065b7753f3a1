-- ===== src/Runtime/System.antt =====
-- runtime/src/eval/system.rs: the system opcodes that only read what is outside the machine. A function
-- that returns `Control::Continue` is an action without a value; one that returns `Control::Exit` stops.
pub mod Keeps
use sputnikvm.Base.{
  ℕ, Bool, true, false, List, [], Option, none, some, ok, err, length, ltb, ◌==◌, if◌then◌else◌,
}
use sputnikvm.PrimitiveTypes.{U256Ops, H160, H256}
use sputnikvm.Core.Error.{out_of_offset, error}
use sputnikvm.Core.Memory as Memory
use sputnikvm.Core.Exec.{
  Exec, exit, pure, stop, gets, with_memory, with_memory_fatal, ◌>>=◌, ◌>>◌, pop_value, push_value,
  pop_u256, push_u256, as_usize_or_fail,
}
use sputnikvm.Runtime.Context.{Context}
use sputnikvm.Runtime.Handler.{Handler}

module _ ⦃U : U256Ops⦄ where
  pub resize : ℕ → ℕ → Exec (Unit {0})
  resize offset len = with_memory (λ memory. Memory.resize_offset memory offset len)

  -- The bytes of a region that is not empty.
  pub read_region : ℕ → ℕ → Exec (List ℕ)
  read_region from len = do
    from ← as_usize_or_fail from
    len ← as_usize_or_fail len
    gets (λ s. Memory.get s.memory from len)

  -- The hash is that of the crate `sha3`.
  pub sha3 : (List ℕ → H256) → Exec (Unit {0})
  unfolding resize read_region
  sha3 keccak256 = do
    from ← pop_u256
    len ← pop_u256
    resize from len
    bytes ← (if len == 0 then pure [] else read_region from len)
    push_value (keccak256 bytes)

  pub chainid : Handler → Exec (Unit {0})
  chainid handler = push_u256 handler.chain_id

  pub address : Context → Exec (Unit {0})
  address context = push_value (U.h256_from_h160 context.address)

  pub balance : Handler → Exec (Unit {0})
  balance handler = do address ← pop_value; push_u256 (handler.balance (U.h160_from_h256 address))

  pub selfbalance : Context → Handler → Exec (Unit {0})
  selfbalance context handler = push_u256 (handler.balance context.address)

  pub origin : Handler → Exec (Unit {0})
  origin handler = push_value (U.h256_from_h160 handler.origin)

  pub caller : Context → Exec (Unit {0})
  caller context = push_value (U.h256_from_h160 context.caller)

  pub callvalue : Context → Exec (Unit {0})
  callvalue context = push_value (U.to_big_endian context.apparent_value)

  pub gasprice : Handler → Exec (Unit {0})
  gasprice handler = push_value (U.to_big_endian handler.gas_price)

  pub extcodesize : Handler → Exec (Unit {0})
  extcodesize handler = do
    address ← pop_value
    push_u256 (handler.code_size (U.h160_from_h256 address))

  pub extcodehash : Handler → Exec (Unit {0})
  extcodehash handler = do
    address ← pop_value
    push_value (handler.code_hash (U.h160_from_h256 address))

  pub extcodecopy : Handler → Exec (Unit {0})
  unfolding resize
  extcodecopy handler = do
    address ← pop_value
    memory_offset ← pop_u256
    code_offset ← pop_u256
    len ← pop_u256
    resize memory_offset len
    with_memory_fatal (λ memory.
        Memory.copy_large memory memory_offset code_offset len
          (handler.code (U.h160_from_h256 address)))

  pub returndatasize : List ℕ → Exec (Unit {0})
  returndatasize return_data_buffer = push_u256 (length return_data_buffer)

  -- Whether the region ends past the returned data, or past the largest `U256`.
  past_end : List ℕ → ℕ → ℕ → Bool
  past_end return_data_buffer data_offset len = elim (U.checked_add data_offset len) [
    | none ↦ true
    | some l ↦ ltb (length return_data_buffer) l
  ]

  pub returndatacopy : List ℕ → Exec (Unit {0})
  unfolding resize past_end
  returndatacopy return_data_buffer = do
    memory_offset ← pop_u256
    data_offset ← pop_u256
    len ← pop_u256
    resize memory_offset len
    if past_end return_data_buffer data_offset len
        then stop (exit (error out_of_offset))
        else with_memory_fatal
            (λ memory. Memory.copy_large memory memory_offset data_offset len return_data_buffer)

  pub blockhash : Handler → Exec (Unit {0})
  blockhash handler = do number ← pop_u256; push_value (handler.block_hash number)

  pub coinbase : Handler → Exec (Unit {0})
  coinbase handler = push_value (U.h256_from_h160 handler.block_coinbase)

  pub timestamp : Handler → Exec (Unit {0})
  timestamp handler = push_u256 handler.block_timestamp

  pub number : Handler → Exec (Unit {0})
  number handler = push_u256 handler.block_number

  pub difficulty : Handler → Exec (Unit {0})
  difficulty handler = push_u256 handler.block_difficulty

  pub gaslimit : Handler → Exec (Unit {0})
  gaslimit handler = push_u256 handler.block_gas_limit

  pub gas : Handler → Exec (Unit {0})
  gas handler = push_u256 handler.gas_left

pub sload : Context → Handler → Exec (Unit {0})
sload context handler = do index ← pop_value; push_value (handler.storage context.address index)
