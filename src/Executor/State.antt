-- ===== src/Executor/State.antt =====
-- src/executor/stack/state.rs: the substates, which are entered and exited like a stack. A substate
-- and its parents are a list of frames, the current one first; a substate owns its parents, so
-- that no frame is shared.
pub mod Known
pub mod Change
pub mod Commit
pub mod Kept
pub mod Nesting
pub mod Deconstruct
use sputnikvm.Base.{
  ℕ, Bool, true, false, ◌&&◌, not, List, [], ◌∷◌, ◌++◌, Option, none, some, ok, err, ltb, ◌==◌,
  if◌then◌else◌, length,
}
use sputnikvm.Base.Result.{Result}
use sputnikvm.Base.Key.{bytes_eq, bytes_key, pair_key}
use sputnikvm.Base.Map
use sputnikvm.Base.Map.{Map, Set}
use sputnikvm.PrimitiveTypes.{H160, H256, zero_h256}
use sputnikvm.Core.Error.{ExitError}
use sputnikvm.Backend.{Basic, Log, Backend}
use sputnikvm.Executor.Metadata
use sputnikvm.Executor.Metadata.{StackSubstateMetadata}

pub record MemoryStackAccount : Type 0 where
  pub basic : Basic
  pub code : Option (List ℕ)
  pub reset : Bool

-- The fields of a substate other than its parent.
pub record Frame : Type 0 where
  pub metadata : StackSubstateMetadata
  pub logs : List Log
  pub accounts : Map H160 MemoryStackAccount
  pub storages : Map (H160 × H256) H256
  pub deletes : Set H160

pub record MemoryStackSubstate : Type 0 where
  pub top : Frame
  pub parents : List Frame

unfoldable pub new_frame : StackSubstateMetadata → Frame
new_frame metadata = record {
  metadata = metadata;
  logs = [];
  accounts = [];
  storages = [];
  deletes = [];
}

unfoldable pub new : StackSubstateMetadata → MemoryStackSubstate
unfolding new_frame
new metadata = record { top = new_frame metadata; parents = [] }

unfoldable pub enter : MemoryStackSubstate → ℕ → Bool → MemoryStackSubstate
unfolding new_frame
enter s gas_limit is_static = record {
  top = new_frame (Metadata.spit_child s.top.metadata gas_limit is_static);
  parents = s.top ∷ s.parents;
}

-- What an exit returns, and the substate after it; `none` where the root cannot be exited.
abbrev pub Exited : Type 0
Exited = Option (Result ExitError (Unit {0}) × MemoryStackSubstate)

-- The loop that collects the addresses of the accounts that are reset.
resets : Map H160 MemoryStackAccount → Set H160
resets [] = []
resets ((address, account) ∷ m) =
    let rest = resets m in if account.reset then Map.insert rest address tt else rest

-- The loops that collect the keys of reset accounts, and remove them.
remove_resets : Map (H160 × H256) H256 → Set H160 → Map (H160 × H256) H256
remove_resets storages reset =
    Map.remove_all storages (Map.keys_with (λ k. Map.contains_key reset k.0) storages)

-- What `exit_commit` does after its `?`.
unfoldable pub merge : Frame → Frame → Frame
unfolding resets remove_resets
merge parent exited = record {
  metadata = parent.metadata;
  logs = parent.logs ++ exited.logs;
  accounts = Map.append parent.accounts exited.accounts;
  storages = Map.append (remove_resets parent.storages (resets exited.accounts)) exited.storages;
  deletes = Map.append parent.deletes exited.deletes;
}

-- `exit_commit` from the result of `swallow_commit`.
commit : Frame → Frame → List Frame → Metadata.Swallowed → Exited
unfolding merge
commit parent exited rest (err e, m) =
    some (err e, record { top = record parent { metadata = m }; parents = rest })
commit parent exited rest (ok u, m) =
    some (ok u, record { top = merge (record parent { metadata = m }) exited; parents = rest })

unfoldable pub exit_commit : MemoryStackSubstate → Exited
unfolding commit
exit_commit s = elim s.parents [
  | [] ↦ none
  | parent ∷ rest ↦
      commit parent s.top rest (Metadata.swallow_commit parent.metadata s.top.metadata)
]

-- The parent after an exit that leaves only its mark on the metadata.
with_metadata : Frame → List Frame → Metadata.Swallowed → Exited
with_metadata parent rest (r, m) =
    some (r, record { top = record parent { metadata = m }; parents = rest })

unfoldable pub exit_revert : MemoryStackSubstate → Exited
unfolding with_metadata
exit_revert s = elim s.parents [
  | [] ↦ none
  | parent ∷ rest ↦
      with_metadata parent rest (Metadata.swallow_revert parent.metadata s.top.metadata)
]

unfoldable pub exit_discard : MemoryStackSubstate → Exited
unfolding with_metadata
exit_discard s = elim s.parents [
  | [] ↦ none
  | parent ∷ rest ↦
      with_metadata parent rest (Metadata.swallow_discard parent.metadata s.top.metadata)
]
