-- ===== src/Tests/State.antt =====
-- src/executor/stack/state.rs on concrete substates: two frames, of which the child is committed or left.
use sputnikvm.Base.{
  ℕ, Bool, ◌&&◌, not, true, false, ◌∷◌, [], ◌++◌, replicate, none, some, ok, ◌≡◌, refl,
}
use sputnikvm.Base.Int.{pos}
use sputnikvm.Base.Key.{bytes_key}
use sputnikvm.Base.Map
use sputnikvm.PrimitiveTypes.{H160, H256, zero_h256}
use sputnikvm.PrimitiveTypes.Native.{native_ops}
use sputnikvm.Runtime.Config.{istanbul}
use sputnikvm.Runtime.Context.{Transfer}
use sputnikvm.Gasometer.Meter as Gasometer
use sputnikvm.Backend.{Backend}
use sputnikvm.Backend.Memory.{MemoryAccount, MemoryVicinity, as_backend}
use sputnikvm.Backend.Memory as Memory
use sputnikvm.Backend.Memory.{MemoryBackend}
use sputnikvm.Executor.StackState.{deconstruct}
use sputnikvm.Executor.StackState.Applied.{HasSorted, AgreesAt, root_values, deconstruct-apply}
use sputnikvm.Executor.Metadata as Metadata
use sputnikvm.Executor.Metadata.{StackSubstateMetadata}
use sputnikvm.Executor.State as State
use sputnikvm.Executor.State.{Frame, MemoryStackAccount, MemoryStackSubstate, exit_commit, merge}
use sputnikvm.Executor.State.Known.{
  frames, known_account, known_storage, known_storage_in, known_original_storage, deleted,
}
use sputnikvm.Executor.State.Commit.{all_logs}
use sputnikvm.Executor.State.Known.{known_basic, known_account_in}
use sputnikvm.Executor.State.Change as Change
use sputnikvm.Executor.State.Nesting.{Step, Run}
use sputnikvm.Executor.State.Nesting.Discard.{exit_discard-Run, exit_revert-Run}
use sputnikvm.Executor.StackState.{
  MemoryStackState, basic, storage, set_storage, reset_storage, transfer, is_empty,
}
use sputnikvm.Executor.StackState.View.{storage_writes}
use sputnikvm.Executor.StackState.Balance.{transfer-basic}
use sputnikvm.Executor.StackState.Empty.{seen_empty, drained, is_empty_lem}
use sputnikvm.Executor.State.Kept.{
  hides_parent_reset, writes_storage, exit_commit-known, exit_commit-known_storage,
  exit_commit-hidden_reset,
}

abbrev pub address_of : ℕ → H160
address_of n = replicate 19 0 ++ (n ∷ [])

abbrev pub word_of : ℕ → H256
word_of n = replicate 31 0 ++ (n ∷ [])

abbrev pub alice : H160
alice = address_of 1

abbrev pub bob : H160
bob = address_of 2

abbrev pub running_meter : Gasometer.Gasometer
running_meter = record {
  gas_limit = 1000;
  config = istanbul;
  inner = ok record { memory_gas = 0; used_gas = 600; refunded_gas = pos 0; config = istanbul };
}

abbrev pub metadata : StackSubstateMetadata
metadata = record { gasometer = running_meter; is_static = false; depth = none }

abbrev pub account : ℕ → Bool → MemoryStackAccount
account balance reset = record {
  basic = record { balance = balance; nonce = 1 };
  code = none;
  reset = reset;
}

abbrev pub parent : Frame
parent = record {
  metadata = metadata;
  logs = [];
  accounts = (alice, account 10 false) ∷ (bob, account 5 true) ∷ [];
  storages = ((alice, word_of 0), word_of 7) ∷ [];
  deletes = [];
}

abbrev child : Frame
child = record {
  metadata = record { gasometer = running_meter; is_static = false; depth = some 0 };
  logs = record { address = alice; topics = []; bytes = 1 ∷ [] } ∷ [];
  accounts = (alice, account 4 true) ∷ [];
  storages = ((alice, word_of 1), word_of 9) ∷ [];
  deletes = (bob, tt) ∷ [];
}

abbrev nested : Frame → MemoryStackSubstate
nested top = record { top = top; parents = parent ∷ [] }

-- The metadata of the parent after the commit: the 400 of gas that the child has left come back.
abbrev metadata_after : StackSubstateMetadata
metadata_after = record metadata {
  gasometer = record running_meter {
    inner = ok record { memory_gas = 0; used_gas = 200; refunded_gas = pos 0; config = istanbul };
  };
}

abbrev after : Frame → MemoryStackSubstate
after top = record { top = merge (record parent { metadata = metadata_after }) top; parents = [] }

nested_commits : exit_commit (nested child) ≡ some (ok tt, after child)
unfolding exit_commit Metadata.swallow_commit Gasometer.record_stipend Gasometer.record_refund
    Gasometer.gas Gasometer.refunded_gas
nested_commits = refl

exit_commit-known_example :
    (known_account (after child) alice ≡ known_account (nested child) alice)
    × (deleted (after child) alice ≡ deleted (nested child) alice)
    × (all_logs (frames (after child)) ≡ all_logs (frames (nested child)))
exit_commit-known_example = exit_commit-known (nested child) (after child) alice nested_commits

exit_commit-known_storage_example :
    (known_storage (after child) alice (word_of 0) ≡ known_storage (nested child) alice (word_of 0))
    × (known_original_storage (after child) alice (word_of 0)
        ≡ known_original_storage (nested child) alice (word_of 0))
unfolding Map.get
exit_commit-known_storage_example =
    exit_commit-known_storage (nested child) (after child) alice (word_of 0) nested_commits (tt, tt)
      refl

-- A child that has bob's account, whose storage the parent has reset.
abbrev toucher : Frame
toucher = record child { accounts = (bob, account 5 false) ∷ [] }

toucher_commits : exit_commit (nested toucher) ≡ some (ok tt, after toucher)
unfolding exit_commit Metadata.swallow_commit Gasometer.record_stipend Gasometer.record_refund
    Gasometer.gas Gasometer.refunded_gas
toucher_commits = refl

bob_hidden : hides_parent_reset (nested toucher) bob ≡ true
unfolding Map.get
bob_hidden = refl

bob_unwritten : writes_storage (nested toucher) bob (word_of 0) ≡ false
unfolding Map.get
bob_unwritten = refl

exit_commit-hidden_reset_example :
    (known_storage (nested toucher) bob (word_of 0) ≡ some zero_h256)
    × (known_storage (after toucher) bob (word_of 0) ≡ known_storage_in [] bob (word_of 0))
exit_commit-hidden_reset_example =
    exit_commit-hidden_reset (nested toucher) (after toucher) bob (word_of 0) toucher_commits
      (tt, tt) bob_hidden bob_unwritten

abbrev memory : MemoryBackend
memory = record {
  vicinity = record {
    gas_price = 1;
    origin = alice;
    chain_id = 1;
    block_hashes = [];
    block_number = 3;
    block_coinbase = bob;
    block_timestamp = 4;
    block_difficulty = 5;
    block_gas_limit = 6;
  };
  state =
      (alice, record { nonce = 0; balance = 8; storage = (word_of 2, word_of 3) ∷ []; code = [] })
      ∷ [];
  logs = [];
}

abbrev pub backend : Backend
backend = as_backend memory

abbrev root : MemoryStackSubstate
root = record { top = parent; parents = [] }

-- A value is written, and the account is touched in a substate that is discarded.
abbrev entered : MemoryStackSubstate
entered = State.enter root 100 false

abbrev written : MemoryStackSubstate
written = Change.set_storage entered alice (word_of 0) (word_of 8)

writes : Run backend false entered (Change.touch written bob backend)
writes =
    Run.step (Step.set_storage entered alice (word_of 0) (word_of 8))
      (Run.step (Step.touch false written bob) (Run.done false (Change.touch written bob backend)))

exit_discard-Run_example :
    State.exit_discard (Change.touch written bob backend) ≡ some (ok tt, root)
exit_discard-Run_example =
    exit_discard-Run false root (Change.touch written bob backend) 100 false writes

exit_revert-Run_example :
    State.exit_revert (Change.touch written bob backend)
    ≡ some (
      (Metadata.swallow_revert metadata (Change.touch written bob backend).top.metadata).0,
      record root {
        top = record parent {
          metadata =
              (Metadata.swallow_revert metadata (Change.touch written bob backend).top.metadata).1;
        };
      },
    )
exit_revert-Run_example =
    exit_revert-Run false root (Change.touch written bob backend) 100 false writes

abbrev state : MemoryStackState
state = record { backend = backend; substate = root }

storage_writes_example :
    (storage (set_storage state alice (word_of 2) (word_of 5)) alice (word_of 2) ≡ word_of 5)
    × (storage (reset_storage state alice) alice (word_of 2) ≡ zero_h256)
storage_writes_example = storage_writes state alice alice (word_of 2) (word_of 2) (word_of 5)

-- alice, who has 10, pays 4 to bob, who has 5.
abbrev payment : Transfer
payment = record { source = alice; target = bob; value = 4 }

transfer-basic_example :
    ((transfer state payment).0 ≡ ok tt)
    × (basic (transfer state payment).1 bob ≡ record { balance = 9; nonce = 1 })
unfolding basic known_basic known_account known_account_in Map.get
transfer-basic_example = transfer-basic state payment bob

-- alice has given everything away; the backend still has 8.
abbrev poor : MemoryStackState
poor = record state {
  substate = record root {
    top = record parent {
      accounts =
          (alice, record { basic = record { balance = 0; nonce = 0 }; code = none; reset = false })
          ∷ [];
    };
  };
}

is_empty_lem_example : is_empty poor alice ≡ (seen_empty poor alice && not (drained poor alice))
is_empty_lem_example = is_empty_lem poor alice

-- What is seen of alice's account through the state is applied.
alice_sorted : HasSorted (Map.get memory.state alice)
unfolding Map.get
alice_sorted = (tt, tt)

deconstruct-apply_example :
    (deconstruct state ≡ some (root_values memory parent, []))
    × AgreesAt memory parent alice
        (word_of 0)
        (Memory.apply memory (root_values memory parent) [] false)
    × ((Memory.apply memory (root_values memory parent) [] false).logs ≡ [])
deconstruct-apply_example = deconstruct-apply memory parent alice (word_of 0) alice_sorted
