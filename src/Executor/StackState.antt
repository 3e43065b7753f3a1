-- ===== src/Executor/StackState.antt =====
-- src/executor/stack/state.rs: a substate over a backend, which is again a backend.
pub mod View
pub mod Balance
pub mod Empty
pub mod Applied
pub mod Nested
pub mod Child
pub mod Quiet
use sputnikvm.Base.{ℕ, Bool, ◌&&◌, ◌||◌, List, Option, none, some, ok, err, unwrap_or, ◌==◌, length}
use sputnikvm.Base.Result.{Result}
use sputnikvm.Base.Map.{or_else, is_some}
use sputnikvm.PrimitiveTypes.{U256Ops, H160, H256}
use sputnikvm.Core.Error.{ExitError}
use sputnikvm.Runtime.Context.{Transfer}
use sputnikvm.Backend.{Basic, Log, Apply, Backend}
use sputnikvm.Executor.Metadata.{StackSubstateMetadata}
use sputnikvm.Executor.State as State
use sputnikvm.Executor.State.{MemoryStackSubstate}
use sputnikvm.Executor.State.Known as Known
use sputnikvm.Executor.State.Change as Change
use sputnikvm.Executor.State.Deconstruct as Deconstruct

pub record MemoryStackState : Type 0 where
  pub backend : Backend
  pub substate : MemoryStackSubstate

pub new : StackSubstateMetadata → Backend → MemoryStackState
new metadata backend = record { backend = backend; substate = State.new metadata }

unfoldable pub exists : MemoryStackState → H160 → Bool
exists s address = is_some (Known.known_account s.substate address) || s.backend.exists address

unfoldable pub basic : MemoryStackState → H160 → Basic
basic s address = unwrap_or (Known.known_basic s.substate address) (s.backend.basic address)

unfoldable pub code : MemoryStackState → H160 → List ℕ
code s address = unwrap_or (Known.known_code s.substate address) (s.backend.code address)

unfoldable pub storage : MemoryStackState → H160 → H256 → H256
storage s address key =
    unwrap_or (Known.known_storage s.substate address key) (s.backend.storage address key)

unfoldable pub original_storage : MemoryStackState → H160 → H256 → Option H256
original_storage s address key =
    or_else (Known.known_original_storage s.substate address key)
      (s.backend.original_storage address key)

-- `impl Backend for MemoryStackState`
unfoldable pub as_backend : MemoryStackState → Backend
as_backend s = record s.backend {
  exists = exists s;
  basic = basic s;
  code = code s;
  storage = storage s;
  original_storage = original_storage s;
}

pub backend_is_empty : Backend → H160 → Bool
backend_is_empty backend address =
    ((backend.basic address).balance == 0)
    && ((backend.basic address).nonce == 0)
    && (length (backend.code address) == 0)

pub is_empty : MemoryStackState → H160 → Bool
unfolding backend_is_empty
is_empty s address =
    unwrap_or (Known.known_empty s.substate address) (backend_is_empty s.backend address)

pub deleted : MemoryStackState → H160 → Bool
deleted s address = Known.deleted s.substate address

pub metadata : MemoryStackState → StackSubstateMetadata
metadata s = s.substate.top.metadata

-- What `metadata_mut` is used for: a change of the metadata.
unfoldable pub set_metadata : MemoryStackState → StackSubstateMetadata → MemoryStackState
set_metadata s m = record s {
  substate = record s.substate { top = record s.substate.top { metadata = m } };
}

pub enter : MemoryStackState → ℕ → Bool → MemoryStackState
enter s gas_limit is_static = record s { substate = State.enter s.substate gas_limit is_static }

-- What an operation returns, and the state after it.
abbrev pub Changed : Type 0
Changed = Result ExitError (Unit {0}) × MemoryStackState

changed : Backend → Change.Changed → Changed
changed backend (r, t) = (r, record { backend = backend; substate = t })

exited : Backend → State.Exited → Option Changed
unfolding changed
exited backend none = none
exited backend (some c) = some (changed backend c)

pub exit_commit : MemoryStackState → Option Changed
unfolding exited
exit_commit s = exited s.backend (State.exit_commit s.substate)

pub exit_revert : MemoryStackState → Option Changed
unfolding exited
exit_revert s = exited s.backend (State.exit_revert s.substate)

pub exit_discard : MemoryStackState → Option Changed
unfolding exited
exit_discard s = exited s.backend (State.exit_discard s.substate)

pub set_storage : MemoryStackState → H160 → H256 → H256 → MemoryStackState
set_storage s address key value = record s {
  substate = Change.set_storage s.substate address key value;
}

pub reset_storage : MemoryStackState → H160 → MemoryStackState
reset_storage s address = record s { substate = Change.reset_storage s.substate address s.backend }

pub log : MemoryStackState → H160 → List H256 → List ℕ → MemoryStackState
log s address topics bytes = record s { substate = Change.log s.substate address topics bytes }

pub set_deleted : MemoryStackState → H160 → MemoryStackState
set_deleted s address = record s { substate = Change.set_deleted s.substate address }

pub set_code : MemoryStackState → H160 → List ℕ → MemoryStackState
set_code s address code = record s { substate = Change.set_code s.substate address code s.backend }

pub reset_balance : MemoryStackState → H160 → MemoryStackState
reset_balance s address = record s { substate = Change.reset_balance s.substate address s.backend }

pub touch : MemoryStackState → H160 → MemoryStackState
touch s address = record s { substate = Change.touch s.substate address s.backend }

unfoldable pub deconstruct : MemoryStackState → Option (List Apply × List Log)
deconstruct s = Deconstruct.deconstruct s.substate s.backend

module _ ⦃U : U256Ops⦄ where
  pub inc_nonce : MemoryStackState → H160 → Option MemoryStackState
  inc_nonce s address = elim (Change.inc_nonce s.substate address s.backend) [
    | none ↦ none
    | some t ↦ some (record s { substate = t })
  ]

  pub transfer : MemoryStackState → Transfer → Changed
  unfolding changed
  transfer s t = changed s.backend (Change.transfer s.substate t s.backend)

  pub withdraw : MemoryStackState → H160 → ℕ → Changed
  unfolding changed
  withdraw s address value = changed s.backend (Change.withdraw s.substate address value s.backend)

  pub deposit : MemoryStackState → H160 → ℕ → MemoryStackState
  deposit s address value = record s {
    substate = Change.deposit s.substate address value s.backend;
  }
