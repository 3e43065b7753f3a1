-- ===== src/Executor/Stack.antt =====
-- src/executor/stack/mod.rs: the executor, and how it answers a running machine.
pub mod Validate
pub mod Fee
pub mod Delete
pub mod Inner
pub mod Create
pub mod Call
pub mod Transact
pub mod Goes
use sputnikvm.Base.{
  ℕ, Bool, true, false, ◌&&◌, not, min, ◌/◌, List, [], ◌∷◌, ◌++◌, Option, none, some, ok, err,
  unwrap_or, ◌==◌, if◌then◌else◌, length,
}
use sputnikvm.Base.Result.{Result}
use sputnikvm.Base.U64.{sub_u64, bits_of_i64}
use sputnikvm.PrimitiveTypes.{U256Ops, H160, H256, zero_h256}
use sputnikvm.Core.Error.{ExitError, ExitSucceed}
use sputnikvm.Core.Opcode.{Opcode}
use sputnikvm.Core.Stack as Core
use sputnikvm.Runtime.Config.{Config}
use sputnikvm.Runtime.Context.{CreateScheme, legacy, create2, fixed, Context, Transfer}
use sputnikvm.Runtime.Handler.{Handler}
use sputnikvm.Gasometer.Static.{static_opcode_cost}
use sputnikvm.Gasometer.Dynamic.{dynamic_opcode_cost}
use sputnikvm.Gasometer.Cost.{GasCost, MemoryCost}
use sputnikvm.Gasometer.Meter as Gasometer
use sputnikvm.Gasometer.Meter.{Gasometer}
use sputnikvm.Backend.{Basic, Log}
use sputnikvm.Executor.Metadata.{StackSubstateMetadata}
use sputnikvm.Executor.StackState as StackState
use sputnikvm.Executor.StackState.{MemoryStackState}

pub record PrecompileOutput : Type 0 where
  pub exit_status : ExitSucceed
  pub cost : ℕ
  pub output : List ℕ
  pub logs : List Log

-- The address, the input, the gas, the context, the state and whether it is static.
abbrev pub PrecompileFn : Type 0
PrecompileFn =
    H160
    → List ℕ
    → Option ℕ
    → Context
    → MemoryStackState
    → Bool
    → Option (Result ExitError PrecompileOutput) × MemoryStackState

-- What the executor calls of the crates `sha3` and `rlp`: the hash of bytes, and the encoding of the list
-- of an address and a nonce.
pub record Crates : Type 0 where
  pub keccak256 : List ℕ → H256
  pub rlp_list : H160 → ℕ → List ℕ

pub record StackExecutor : Type 0 where
  pub config : Config
  pub precompile : PrecompileFn
  pub state : MemoryStackState

pub no_precompile : PrecompileFn
no_precompile address input target_gas context state is_static = (none, state)

pub new_with_precompile : MemoryStackState → Config → PrecompileFn → StackExecutor
new_with_precompile state config precompile = record {
  config = config;
  precompile = precompile;
  state = state;
}

pub new : MemoryStackState → Config → StackExecutor
unfolding new_with_precompile no_precompile
new state config = new_with_precompile state config no_precompile

pub data StackExitKind : Type 0 where
  succeeded reverted failed : StackExitKind

pub enter_substate : StackExecutor → ℕ → Bool → StackExecutor
enter_substate e gas_limit is_static = record e {
  state = StackState.enter e.state gas_limit is_static;
}

-- What an operation returns, and the executor after it.
abbrev pub Answered : Type 0
Answered = Result ExitError (Unit {0}) × StackExecutor

with_state : StackExecutor → StackState.Changed → Answered
with_state e (r, s) = (r, record e { state = s })

exited : StackExecutor → Option StackState.Changed → Option Answered
unfolding with_state
exited e none = none
exited e (some c) = some (with_state e c)

-- `none` where the root would be exited.
pub exit_substate : StackExecutor → StackExitKind → Option Answered
unfolding exited
exit_substate e succeeded = exited e (StackState.exit_commit e.state)
exit_substate e reverted = exited e (StackState.exit_revert e.state)
exit_substate e failed = exited e (StackState.exit_discard e.state)

unfoldable pub gasometer : StackExecutor → Gasometer
gasometer e = e.state.substate.top.metadata.gasometer

-- A change of the gasometer of the current substate.
pub set_gasometer : StackExecutor → Gasometer → StackExecutor
set_gasometer e g = record e {
  state = StackState.set_metadata e.state (record e.state.substate.top.metadata { gasometer = g });
}

pub gas : StackExecutor → ℕ
unfolding gasometer
gas e = Gasometer.gas (gasometer e)

pub used_gas : StackExecutor → ℕ
unfolding gasometer
used_gas e =
    let used = Gasometer.total_used_gas (gasometer e) in
    sub_u64 used (min (used / 2) (bits_of_i64 (Gasometer.refunded_gas (gasometer e))))

pub nonce : StackExecutor → H160 → ℕ
nonce e address = (StackState.basic e.state address).nonce

-- `impl Handler for StackExecutor`
pub balance : StackExecutor → H160 → ℕ
balance e address = (StackState.basic e.state address).balance

pub code_size : StackExecutor → H160 → ℕ
code_size e address = length (StackState.code e.state address)

pub exists : StackExecutor → H160 → Bool
exists e address =
    if e.config.empty_considered_exists
    then StackState.exists e.state address
    else StackState.exists e.state address && not (StackState.is_empty e.state address)

pub original_storage : StackExecutor → H160 → H256 → H256
original_storage e address index =
    unwrap_or (StackState.original_storage e.state address index) zero_h256

pub set_storage : StackExecutor → H160 → H256 → H256 → Answered
set_storage e address index value =
    (ok tt, record e { state = StackState.set_storage e.state address index value })

pub log : StackExecutor → H160 → List H256 → List ℕ → Answered
log e address topics bytes =
    (ok tt, record e { state = StackState.log e.state address topics bytes })

-- `mark_delete` after the `?` of its transfer.
deleted_after : StackExecutor → H160 → StackState.Changed → Answered
deleted_after e address (err x, s) = (err x, record e { state = s })
deleted_after e address (ok u, s) = (
  ok tt,
  record e { state = StackState.set_deleted (StackState.reset_balance s address) address },
)

module _ ⦃U : U256Ops⦄ where
  -- None where the product is past 256 bits: the multiplication panics.
  pub fee : StackExecutor → ℕ → Option ℕ
  fee e price = U.checked_mul (used_gas e) price

  pub mark_delete : StackExecutor → H160 → H160 → Answered
  unfolding balance deleted_after
  mark_delete e address target = deleted_after e address (
      StackState.transfer e.state
        record { source = address; target = target; value = balance e address })

module _ ⦃crates : Crates⦄ where
  pub code_hash : StackExecutor → H160 → H256
  unfolding exists
  code_hash e address =
      if not (exists e address)
      then zero_h256
      else crates.keccak256 (StackState.code e.state address)

module _ ⦃U : U256Ops⦄ ⦃crates : Crates⦄ where
  pub create_address : StackExecutor → CreateScheme → H160
  unfolding nonce
  create_address e (create2 caller code_hash salt) =
      U.h160_from_h256 (crates.keccak256 ((0xff ∷ []) ++ caller ++ salt ++ code_hash))
  create_address e (legacy caller) =
      U.h160_from_h256 (crates.keccak256 (crates.rlp_list caller (nonce e caller)))
  create_address e (fixed naddress) = naddress

  pub as_handler : StackExecutor → Handler
  unfolding balance code_size code_hash exists original_storage gas
  as_handler e = record {
    balance = balance e;
    code_size = code_size e;
    code_hash = code_hash e;
    code = StackState.code e.state;
    storage = StackState.storage e.state;
    original_storage = original_storage e;
    gas_left = gas e;
    gas_price = e.state.backend.gas_price;
    origin = e.state.backend.origin;
    block_hash = e.state.backend.block_hash;
    block_number = e.state.backend.block_number;
    block_coinbase = e.state.backend.block_coinbase;
    block_timestamp = e.state.backend.block_timestamp;
    block_difficulty = e.state.backend.block_difficulty;
    block_gas_limit = e.state.backend.block_gas_limit;
    chain_id = e.state.backend.chain_id;
    exists = exists e;
    deleted = StackState.deleted e.state;
  }

  -- What an operation of the gasometer returns, and the executor after it.
  recorded : StackExecutor → Gasometer.Recorded → Answered
  unfolding set_gasometer
  recorded e (r, g) = (r, set_gasometer e g)

  -- `pre_validate` from the dynamic cost.
  record_dynamic : StackExecutor → Result ExitError (GasCost × Option MemoryCost) → Answered
  unfolding gasometer recorded
  record_dynamic e (err x) = (err x, e)
  record_dynamic e (ok (gas_cost, memory_cost)) =
      recorded e (Gasometer.record_dynamic_cost (gasometer e) gas_cost memory_cost)

  pub pre_validate : StackExecutor → Context → Opcode → Core.Stack → Answered
  unfolding gasometer recorded record_dynamic as_handler
  pre_validate e context opcode stack = elim (static_opcode_cost opcode) [
    | some cost ↦ recorded e (Gasometer.record_cost (gasometer e) cost)
    | none ↦ record_dynamic e (
        dynamic_opcode_cost context.address opcode stack e.state.substate.top.metadata.is_static
          e.config (as_handler e))
  ]
