-- ===== src/Executor/State/Nesting.antt =====
-- src/executor/stack/state.rs: operations between an enter and an exit, as a relation, and what an exit
-- gives back.
pub mod Discard
pub mod Exits
use sputnikvm.Base.{◌≡◌, ℕ, Bool, false, ◌||◌, List, Option, some}
use sputnikvm.Base.Result.{Result}
use sputnikvm.Core.Error.{ExitError}
use sputnikvm.PrimitiveTypes.{U256Ops, H160, H256}
use sputnikvm.Runtime.Context.{Transfer, MovesNothing}
use sputnikvm.Backend.{Backend}
use sputnikvm.Executor.Metadata.{StackSubstateMetadata}
use sputnikvm.Executor.State.{MemoryStackSubstate, enter, exit_commit, exit_revert, exit_discard}
use sputnikvm.Executor.State.Change

module _ ⦃U : U256Ops⦄ (backend : Backend) where
  -- One operation on a substate, which is static where the index is true. In a static one the only
  -- operations are those that may happen there. What the executor does to the metadata of the current
  -- one is any change that keeps whether it is static.
  pub data Step : Bool → MemoryStackSubstate → MemoryStackSubstate → Type 0 where
    metadata :
        (b : Bool) (s : MemoryStackSubstate) (m : StackSubstateMetadata)
        → m.is_static ≡ s.top.metadata.is_static
        → Step b s (record s { top = record s.top { metadata = m } })
    touch : (b : Bool) (s : MemoryStackSubstate) (a : H160) → Step b s (Change.touch s a backend)
    transfer_nothing :
        (b : Bool) (s : MemoryStackSubstate) (t : Transfer)
        → MovesNothing t
        → Step b s (Change.transfer s t backend).1
    inc_nonce :
        (s t : MemoryStackSubstate) (a : H160)
        → Change.inc_nonce s a backend ≡ some t
        → Step false s t
    set_storage :
        (s : MemoryStackSubstate) (a : H160) (k v : H256)
        → Step false s (Change.set_storage s a k v)
    reset_storage :
        (s : MemoryStackSubstate) (a : H160) → Step false s (Change.reset_storage s a backend)
    log :
        (s : MemoryStackSubstate) (a : H160) (topics : List H256) (bytes : List ℕ)
        → Step false s (Change.log s a topics bytes)
    set_deleted : (s : MemoryStackSubstate) (a : H160) → Step false s (Change.set_deleted s a)
    set_code :
        (s : MemoryStackSubstate) (a : H160) (code : List ℕ)
        → Step false s (Change.set_code s a code backend)
    transfer :
        (s : MemoryStackSubstate) (t : Transfer) → Step false s (Change.transfer s t backend).1
    withdraw :
        (s : MemoryStackSubstate) (a : H160) (v : ℕ)
        → Step false s (Change.withdraw s a v backend).1
    deposit :
        (s : MemoryStackSubstate) (a : H160) (v : ℕ) → Step false s (Change.deposit s a v backend)
    reset_balance :
        (s : MemoryStackSubstate) (a : H160) → Step false s (Change.reset_balance s a backend)

  -- Operations in a row, and substates that are entered and exited between them. A substate that is
  -- entered from a static one is static.
  pub data Run : Bool → MemoryStackSubstate → MemoryStackSubstate → Type 0 where
    done : (b : Bool) (s : MemoryStackSubstate) → Run b s s
    step : {b : Bool} {s t u : MemoryStackSubstate} → Step b s t → Run b t u → Run b s u
    committed :
        {b : Bool} {s t u v : MemoryStackSubstate} (gas_limit : ℕ) (is_static : Bool)
        (r : Result ExitError (Unit {0}))
        → Run (is_static || b) (enter s gas_limit is_static) t
        → exit_commit t ≡ some (r, u)
        → Run b u v
        → Run b s v
    reverted :
        {b : Bool} {s t u v : MemoryStackSubstate} (gas_limit : ℕ) (is_static : Bool)
        (r : Result ExitError (Unit {0}))
        → Run (is_static || b) (enter s gas_limit is_static) t
        → exit_revert t ≡ some (r, u)
        → Run b u v
        → Run b s v
    discarded :
        {b : Bool} {s t u v : MemoryStackSubstate} (gas_limit : ℕ) (is_static : Bool)
        (r : Result ExitError (Unit {0}))
        → Run (is_static || b) (enter s gas_limit is_static) t
        → exit_discard t ≡ some (r, u)
        → Run b u v
        → Run b s v
