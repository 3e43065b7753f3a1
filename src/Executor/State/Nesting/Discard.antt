-- ===== src/Executor/State/Nesting/Discard.antt =====
-- src/executor/stack/state.rs: what the exits leave of a parent, after any operations on its child.
use sputnikvm.Base.{ℕ, Bool, List, [], ◌∷◌, some, ok, err, ◌≡◌, refl, sym, ap, ◌∙◌}
use sputnikvm.Base.Result.{Result}
use sputnikvm.Core.Error.{ExitError}
use sputnikvm.PrimitiveTypes.{U256Ops}
use sputnikvm.Backend.{Backend}
use sputnikvm.Executor.Metadata
use sputnikvm.Executor.Metadata.{StackSubstateMetadata}
use sputnikvm.Executor.Metadata.Static.{
  swallow_commit-is_static, swallow_revert-is_static, swallow_discard-is_static,
}
use sputnikvm.Executor.State.Known.{frames}
use sputnikvm.Executor.State.{
  Frame, MemoryStackSubstate, merge, enter, exit_commit, exit_revert, exit_discard, commit,
  with_metadata,
}
use sputnikvm.Executor.State.Change.Keeps as Keeps
use sputnikvm.Executor.State.Change.Keeps.{Keeps}
use sputnikvm.Executor.State.Commit.{exited_state}
use sputnikvm.Base.Map.Sorted.{IsSorted, append-IsSorted}
use sputnikvm.Base.Key.{bytes_key}
use sputnikvm.Executor.State.Nesting.{Step, Run}

-- What every operation keeps: the parents, whether the substate is static, and that the accounts are sorted.
record KeepsStatic (s t : MemoryStackSubstate) : Type 0 where
  parents : t.parents ≡ s.parents
  static : t.top.metadata.is_static ≡ s.top.metadata.is_static
  sorted : IsSorted s.top.accounts → IsSorted t.top.accounts

from_Keeps : {s t : MemoryStackSubstate} → Keeps s t → KeepsStatic s t
from_Keeps k = record {
  parents = k.parents;
  static = ap (λ m. m.is_static) k.metadata;
  sorted = k.sorted;
}

module _ ⦃U : U256Ops⦄ {backend : Backend} where
  Step-Keeps : {b : Bool} {s t : MemoryStackSubstate} → Step backend b s t → KeepsStatic s t
  Step-Keeps (Step.metadata b s m h) = record { parents = refl; static = h; sorted = λ k. k }
  Step-Keeps (Step.touch b s a) = from_Keeps (Keeps.touch-Keeps s a backend)
  Step-Keeps (Step.transfer_nothing b s t h) = from_Keeps (Keeps.transfer-Keeps s t backend)
  Step-Keeps (Step.inc_nonce s t a e) = from_Keeps (Keeps.inc_nonce-Keeps s t a backend e)
  Step-Keeps (Step.set_storage s a k v) = from_Keeps (Keeps.set_storage-Keeps s a k v)
  Step-Keeps (Step.reset_storage s a) = from_Keeps (Keeps.reset_storage-Keeps s a backend)
  Step-Keeps (Step.log s a topics bytes) = from_Keeps (Keeps.log-Keeps s a topics bytes)
  Step-Keeps (Step.set_deleted s a) = from_Keeps (Keeps.set_deleted-Keeps s a)
  Step-Keeps (Step.set_code s a c) = from_Keeps (Keeps.set_code-Keeps s a c backend)
  Step-Keeps (Step.transfer s t) = from_Keeps (Keeps.transfer-Keeps s t backend)
  Step-Keeps (Step.withdraw s a v) = from_Keeps (Keeps.withdraw-Keeps s a v backend)
  Step-Keeps (Step.deposit s a v) = from_Keeps (Keeps.deposit-Keeps s a v backend)
  Step-Keeps (Step.reset_balance s a) = from_Keeps (Keeps.reset_balance-Keeps s a backend)

-- Every map of accounts is sorted.
abbrev pub AllSorted : List Frame → Type 0
AllSorted [] = Unit {0}
AllSorted (f ∷ fs) = IsSorted f.accounts × AllSorted fs

-- What every exit does: the first parent is current again, with its metadata or the merged maps, and as static as it was.
pub record Returns (parent : Frame) (rest : List Frame) (u : MemoryStackSubstate) : Type 0 where
  pub parents : u.parents ≡ rest
  pub static : u.top.metadata.is_static ≡ parent.metadata.is_static
  pub sorted : IsSorted parent.accounts → IsSorted u.top.accounts

commit-Returns :
    (parent exited : Frame) (rest : List Frame) (m : Metadata.Swallowed)
    (r : Result ExitError (Unit {0})) (u : MemoryStackSubstate)
    → m.1.is_static ≡ parent.metadata.is_static
    → commit parent exited rest m ≡ some (r, u)
    → Returns parent rest u
unfolding commit merge
commit-Returns parent exited rest (err e, m) r u k h =
    rw (sym (exited_state h)) record { parents = refl; static = k; sorted = λ s. s }
commit-Returns parent exited rest (ok v, m) r u k h =
    rw (sym (exited_state h)) record {
      parents = refl;
      static = k;
      sorted = append-IsSorted parent.accounts exited.accounts;
    }

with_metadata-Returns :
    (parent : Frame) (rest : List Frame) (m : Metadata.Swallowed) (r : Result ExitError (Unit {0}))
    (u : MemoryStackSubstate)
    → m.1.is_static ≡ parent.metadata.is_static
    → with_metadata parent rest m ≡ some (r, u)
    → Returns parent rest u
unfolding with_metadata
with_metadata-Returns parent rest (q, m) r u k h =
    rw (sym (exited_state h)) record { parents = refl; static = k; sorted = λ s. s }

module _ (parent : Frame) (rest : List Frame) (s u : MemoryStackSubstate)
    (p : s.parents ≡ parent ∷ rest) (r : Result ExitError (Unit {0})) where
  pub exit_commit-Returns : exit_commit s ≡ some (r, u) → Returns parent rest u
  unfolding exit_commit
  exit_commit-Returns h =
      commit-Returns parent s.top rest _ r u
        (swallow_commit-is_static parent.metadata s.top.metadata) (rw p at h)

  pub exit_revert-Returns : exit_revert s ≡ some (r, u) → Returns parent rest u
  unfolding exit_revert
  exit_revert-Returns h =
      with_metadata-Returns parent rest _ r u
        (swallow_revert-is_static parent.metadata s.top.metadata) (rw p at h)

  pub exit_discard-Returns : exit_discard s ≡ some (r, u) → Returns parent rest u
  unfolding exit_discard
  exit_discard-Returns h =
      with_metadata-Returns parent rest _ r u
        (swallow_discard-is_static parent.metadata s.top.metadata) (rw p at h)

-- What a run keeps: the parents, whether the substate is static, and that every map of accounts is sorted.
pub record Inside (s t : MemoryStackSubstate) : Type 0 where
  pub parents : t.parents ≡ s.parents
  pub static : t.top.metadata.is_static ≡ s.top.metadata.is_static
  pub sorted : AllSorted (frames s) → AllSorted (frames t)

Keeps-Inside : {s t u : MemoryStackSubstate} → KeepsStatic s t → Inside t u → Inside s u
Keeps-Inside k i = record {
  parents = i.parents ∙ k.parents;
  static = i.static ∙ k.static;
  sorted = λ h. i.sorted (k.sorted h.0, rw k.parents h.1);
}

enter-Inside :
    {s t u v : MemoryStackSubstate} (gas_limit : ℕ) (is_static : Bool)
    → Inside (enter s gas_limit is_static) t
    → (t.parents ≡ s.top ∷ s.parents → Returns s.top s.parents u)
    → Inside u v
    → Inside s v
unfolding enter
enter-Inside gas_limit is_static i returns j =
    let back = returns i.parents in
    record {
      parents = j.parents ∙ back.parents;
      static = j.static ∙ back.static;
      sorted = λ h. j.sorted (back.sorted h.0, rw back.parents h.1);
    }

module _ ⦃U : U256Ops⦄ {backend : Backend} where
  pub Run-Inside : {b : Bool} {s t : MemoryStackSubstate} → Run backend b s t → Inside s t
  Run-Inside (Run.done b s) = record { parents = refl; static = refl; sorted = λ h. h }
  Run-Inside (Run.step st r) = Keeps-Inside (Step-Keeps st) (Run-Inside r)
  Run-Inside (Run.committed gas_limit is_static q r h k) =
      enter-Inside gas_limit is_static (Run-Inside r) (λ p. exit_commit-Returns _ _ _ _ p q h)
        (Run-Inside k)
  Run-Inside (Run.reverted gas_limit is_static q r h k) =
      enter-Inside gas_limit is_static (Run-Inside r) (λ p. exit_revert-Returns _ _ _ _ p q h)
        (Run-Inside k)
  Run-Inside (Run.discarded gas_limit is_static q r h k) =
      enter-Inside gas_limit is_static (Run-Inside r) (λ p. exit_discard-Returns _ _ _ _ p q h)
        (Run-Inside k)

  -- A substate that is entered, goes through any operations, entered and exited substates among them, and
  -- is then discarded leaves exactly the substate that it was entered from.
  pub exit_discard-Run :
      (b : Bool) (s t : MemoryStackSubstate) (gas_limit : ℕ) (is_static : Bool)
      → Run backend b (enter s gas_limit is_static) t
      → exit_discard t ≡ some (ok tt, s)
  unfolding exit_discard with_metadata Metadata.swallow_discard enter
  exit_discard-Run b s t gas_limit is_static r = rw ((Run-Inside r).parents, exit_discard) refl

  -- A substate that is entered, goes through any operations, entered and exited substates among them, and
  -- is then reverted leaves the substate that it was entered from, to whose metadata only
  -- `swallow_revert` was done.
  pub exit_revert-Run :
      (b : Bool) (s t : MemoryStackSubstate) (gas_limit : ℕ) (is_static : Bool)
      → Run backend b (enter s gas_limit is_static) t
      → let (r, m) = Metadata.swallow_revert s.top.metadata t.top.metadata in
        exit_revert t ≡ some (r, record s { top = record s.top { metadata = m } })
  unfolding exit_revert with_metadata enter
  exit_revert-Run b s t gas_limit is_static r = rw ((Run-Inside r).parents, exit_revert) refl
