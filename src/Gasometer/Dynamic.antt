-- ===== src/Gasometer/Dynamic.antt =====
-- gasometer/src/lib.rs: the cost of the other opcodes, from the stack and the state.
pub mod StaticMode
use sputnikvm.Base.{
  ℕ, ◌+◌, Bool, true, false, ◌&&◌, ◌||◌, not, List, [], ◌∷◌, Option, none, some, ok, err, and_then,
  ◌==◌, if◌then◌else◌,
}
use sputnikvm.Base.Result.{Result}
use sputnikvm.PrimitiveTypes.{U256Ops, H160, H256}
use sputnikvm.Core.Error.{ExitError}
use sputnikvm.Core.Opcode
use sputnikvm.Core.Opcode.{Opcode}
use sputnikvm.Core.Stack.{Stack, peek}
use sputnikvm.Runtime.Config.{Config}
use sputnikvm.Runtime.Handler.{Handler}
use sputnikvm.Gasometer.Cost.{
  GasCost, zero, base, very_low, low, invalid, ext_code_size, balance, block_hash, ext_code_hash,
  call, call_code, delegate_call, static_call, suicide, s_store, sha3, log, ext_code_copy,
  very_low_copy, exp, create, create2, s_load, MemoryCost, join,
}

-- An arm of a match: the opcode and what it gives.
abbrev Arms : Type 0 → Type 0
Arms A = List (Opcode × Result ExitError A)

-- The arm of an opcode, or that of the wildcard.
abbrev arm : {A : Type 0} → Arms A → Opcode → Result ExitError A → Result ExitError A
arm [] opcode wildcard = wildcard
arm ((o, r) ∷ rest) opcode wildcard =
    let later = arm rest opcode wildcard in if o == opcode then r else later

-- The cost of an opcode that a guard allows.
abbrev allowed : Bool → Result ExitError GasCost → Result ExitError GasCost
allowed guard cost = if guard then cost else ok invalid

module _ ⦃U : U256Ops⦄ where
  -- `U256::from_big_endian(&stack.peek(n)?[..])`
  abbrev peek_u256 : Stack → ℕ → Result ExitError ℕ
  peek_u256 stack n = and_then (peek stack n) λ v. ok (U.from_big_endian v)

  -- `handler.exists(stack.peek(n)?.into())`
  abbrev peek_exists : Handler → Stack → ℕ → Result ExitError Bool
  peek_exists handler stack n =
      and_then (peek stack n) λ v. ok (handler.exists (U.h160_from_h256 v))

  abbrev by_len : (ℕ → GasCost) → Stack → ℕ → Result ExitError GasCost
  by_len cost stack n = and_then (peek_u256 stack n) λ len. ok (cost len)

  abbrev by_value : (ℕ → ℕ → Bool → GasCost) → Handler → Stack → Result ExitError GasCost
  by_value cost handler stack = and_then (peek_u256 stack 2) λ value.
      and_then (peek_u256 stack 0) λ gas.
        and_then (peek_exists handler stack 1) λ target_exists. ok (cost value gas target_exists)

  abbrev by_gas : (ℕ → Bool → GasCost) → Handler → Stack → Result ExitError GasCost
  by_gas cost handler stack =
      and_then (peek_u256 stack 0)
        λ gas. and_then (peek_exists handler stack 1) λ target_exists. ok (cost gas target_exists)

  s_store_of : H160 → Handler → Stack → Result ExitError GasCost
  s_store_of address handler stack = and_then (peek stack 0) λ index.
      and_then (peek stack 1) λ value.
        ok (s_store (handler.original_storage address index) (handler.storage address index) value)

  suicide_of : H160 → Handler → Stack → Result ExitError GasCost
  suicide_of address handler stack = and_then (peek_exists handler stack 0) λ target_exists.
      ok (suicide (handler.balance address) target_exists (handler.deleted address))

  -- The arm of `CALL`: its guard reads the value if the machine is static.
  call_of : Handler → Stack → Bool → Result ExitError GasCost
  call_of handler stack false = by_value call handler stack
  call_of handler stack true =
      and_then (peek_u256 stack 2)
        λ value. if value == 0 then by_value call handler stack else ok invalid

  gas_arms : H160 → Stack → Bool → Config → Handler → Arms GasCost
  unfolding s_store_of suicide_of call_of
  gas_arms address stack is_static config handler =
      (Opcode.return, ok zero)
      ∷ (Opcode.mload, ok very_low)
      ∷ (Opcode.mstore, ok very_low)
      ∷ (Opcode.mstore8, ok very_low)
      ∷ (Opcode.revert, allowed config.has_revert (ok zero))
      ∷ (Opcode.chainid, allowed config.has_chain_id (ok base))
      ∷ (Opcode.shl, allowed config.has_bitwise_shifting (ok very_low))
      ∷ (Opcode.shr, allowed config.has_bitwise_shifting (ok very_low))
      ∷ (Opcode.sar, allowed config.has_bitwise_shifting (ok very_low))
      ∷ (Opcode.selfbalance, allowed config.has_self_balance (ok low))
      ∷ (Opcode.extcodesize, ok ext_code_size)
      ∷ (Opcode.balance, ok balance)
      ∷ (Opcode.blockhash, ok block_hash)
      ∷ (Opcode.extcodehash, allowed config.has_ext_code_hash (ok ext_code_hash))
      ∷ (Opcode.callcode, by_value call_code handler stack)
      ∷ (Opcode.staticcall, by_gas static_call handler stack)
      ∷ (Opcode.sha3, by_len sha3 stack 1)
      ∷ (Opcode.extcodecopy, by_len ext_code_copy stack 3)
      ∷ (Opcode.calldatacopy, by_len very_low_copy stack 2)
      ∷ (Opcode.codecopy, by_len very_low_copy stack 2)
      ∷ (Opcode.exp, by_len exp stack 1)
      ∷ (Opcode.sload, ok s_load)
      ∷ (Opcode.delegatecall, allowed config.has_delegate_call (by_gas delegate_call handler stack))
      ∷ (Opcode.returndatasize, allowed config.has_return_data (ok base))
      ∷ (Opcode.returndatacopy, allowed config.has_return_data (by_len very_low_copy stack 2))
      ∷ (Opcode.sstore, allowed (not is_static) (s_store_of address handler stack))
      ∷ (Opcode.log0, allowed (not is_static) (by_len (log 0) stack 1))
      ∷ (Opcode.log1, allowed (not is_static) (by_len (log 1) stack 1))
      ∷ (Opcode.log2, allowed (not is_static) (by_len (log 2) stack 1))
      ∷ (Opcode.log3, allowed (not is_static) (by_len (log 3) stack 1))
      ∷ (Opcode.log4, allowed (not is_static) (by_len (log 4) stack 1))
      ∷ (Opcode.create, allowed (not is_static) (ok create))
      ∷ (Opcode.create2, allowed (not is_static && config.has_create2) (by_len create2 stack 2))
      ∷ (Opcode.suicide, allowed (not is_static) (suicide_of address handler stack))
      ∷ (Opcode.call, call_of handler stack is_static)
      ∷ []

  abbrev Region : Type 0
  Region = Result ExitError (Option MemoryCost)

  -- A region from two items of the stack.
  abbrev region : Stack → ℕ → ℕ → Result ExitError MemoryCost
  region stack offset_at len_at =
      and_then (peek_u256 stack offset_at)
        λ offset. and_then (peek_u256 stack len_at) λ len. ok record { offset = offset; len = len }

  abbrev one_region : Stack → ℕ → ℕ → Region
  one_region stack offset_at len_at = and_then (region stack offset_at len_at) λ m. ok (some m)

  abbrev fixed_region : Stack → ℕ → Region
  fixed_region stack len =
      and_then (peek_u256 stack 0) λ offset. ok (some record { offset = offset; len = len })

  -- The regions of the input and of the output.
  abbrev two_regions : Stack → ℕ → Region
  two_regions stack n =
      and_then (region stack n (n + 1))
        λ input. and_then (region stack (n + 2) (n + 3)) λ output. ok (some (join input output))

  memory_arms : Stack → Arms (Option MemoryCost)
  memory_arms stack =
      (Opcode.sha3, one_region stack 0 1)
      ∷ (Opcode.return, one_region stack 0 1)
      ∷ (Opcode.revert, one_region stack 0 1)
      ∷ (Opcode.log0, one_region stack 0 1)
      ∷ (Opcode.log1, one_region stack 0 1)
      ∷ (Opcode.log2, one_region stack 0 1)
      ∷ (Opcode.log3, one_region stack 0 1)
      ∷ (Opcode.log4, one_region stack 0 1)
      ∷ (Opcode.codecopy, one_region stack 0 2)
      ∷ (Opcode.calldatacopy, one_region stack 0 2)
      ∷ (Opcode.returndatacopy, one_region stack 0 2)
      ∷ (Opcode.extcodecopy, one_region stack 1 3)
      ∷ (Opcode.mload, fixed_region stack 32)
      ∷ (Opcode.mstore, fixed_region stack 32)
      ∷ (Opcode.mstore8, fixed_region stack 1)
      ∷ (Opcode.create, one_region stack 1 2)
      ∷ (Opcode.create2, one_region stack 1 2)
      ∷ (Opcode.call, two_regions stack 3)
      ∷ (Opcode.callcode, two_regions stack 3)
      ∷ (Opcode.delegatecall, two_regions stack 2)
      ∷ (Opcode.staticcall, two_regions stack 2)
      ∷ []

  unfoldable pub dynamic_gas_cost :
      H160 → Opcode → Stack → Bool → Config → Handler → Result ExitError GasCost
  unfolding gas_arms
  dynamic_gas_cost address opcode stack is_static config handler =
      arm (gas_arms address stack is_static config handler) opcode (ok invalid)

  unfoldable pub dynamic_memory_cost : Opcode → Stack → Result ExitError (Option MemoryCost)
  unfolding memory_arms
  dynamic_memory_cost opcode stack = arm (memory_arms stack) opcode (ok none)

  unfoldable pub dynamic_opcode_cost :
      H160
      → Opcode
      → Stack
      → Bool
      → Config
      → Handler
      → Result ExitError (GasCost × Option MemoryCost)
  dynamic_opcode_cost address opcode stack is_static config handler =
      and_then (dynamic_gas_cost address opcode stack is_static config handler) λ gas_cost.
        and_then (dynamic_memory_cost opcode stack) λ memory_cost. ok (gas_cost, memory_cost)
