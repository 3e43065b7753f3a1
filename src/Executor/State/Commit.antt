-- ===== src/Executor/State/Commit.antt =====
-- src/executor/stack/state.rs: the frame that a commit leaves, and what is known through it.
use sputnikvm.Base.{
  Bool, true, false, ◌&&◌, ◌||◌, List, [], ◌∷◌, ◌++◌, Option, none, some, ok, err, ◌≡◌, refl, sym,
  if◌then◌else◌, not, arith,
}
use mathlib.Core.List.{append_assoc}
use sputnikvm.Base.Result.{Result}
use sputnikvm.Core.Error.{ExitError}
use sputnikvm.Base.Key.{bytes_eq_iff, bytes_key, pair_key}
use sputnikvm.Base.Map
use sputnikvm.Base.Map.{Map, Set}
use sputnikvm.Base.Map.Sorted.{IsSorted, get-IsAfter}
use sputnikvm.PrimitiveTypes.{H160, H256, zero_h256}
use sputnikvm.Backend.{Log}
use sputnikvm.Executor.Metadata
use sputnikvm.Executor.Metadata.{StackSubstateMetadata}
use sputnikvm.Executor.State.{
  MemoryStackAccount, Frame, Exited, MemoryStackSubstate, exit_commit, commit, merge, resets,
  remove_resets,
}
use sputnikvm.Executor.State.Known.{
  known_account_in, known_storage_in, known_original_storage_in, deleted_in, is_reset,
}

-- The substate after a commit is the rest of the parents under the merged frame.
pub data Commits : MemoryStackSubstate → MemoryStackSubstate → Type 0 where
  commits :
      (exited parent : Frame) (rest : List Frame) (m : StackSubstateMetadata)
      → Commits
          record { top = exited; parents = parent ∷ rest }
          record { top = merge (record parent { metadata = m }) exited; parents = rest }

-- The state of a result that is there.
pub exited_state :
    {r q : Result ExitError (Unit {0})} {s t : MemoryStackSubstate}
    → ◌≡◌ {A = Exited} (some (r, s)) (some (q, t))
    → s ≡ t
exited_state h = ground arith

commit-Commits :
    (parent exited : Frame) (rest : List Frame) (r : Metadata.Swallowed) (t : MemoryStackSubstate)
    → commit parent exited rest r ≡ some (ok tt, t)
    → Commits record { top = exited; parents = parent ∷ rest } t
unfolding commit
commit-Commits parent exited rest (err e, m) t h = ground arith
commit-Commits parent exited rest (ok u, m) t h =
    rw (sym (exited_state h)) (commits exited parent rest m)

exit-Commits :
    (exited : Frame) (parents : List Frame) (t : MemoryStackSubstate)
    → exit_commit record { top = exited; parents = parents } ≡ some (ok tt, t)
    → Commits record { top = exited; parents = parents } t
unfolding exit_commit
exit-Commits exited [] t h = ground arith
exit-Commits exited (parent ∷ rest) t h = commit-Commits parent exited rest _ t h

pub exit_commit-Commits :
    (s t : MemoryStackSubstate) → exit_commit s ≡ some (ok tt, t) → Commits s t
exit_commit-Commits s t h = exit-Commits s.top s.parents t h

contains_key-resets :
    (m : Map H160 MemoryStackAccount) (a : H160)
    → IsSorted m
    → Map.contains_key (resets m) a ≡ is_reset (Map.get m a)
unfolding resets
contains_key-resets [] a s = ground (
  arith,
  Map.contains_key_lem {V = Unit {0}} [] a,
  Map.get-empty {V = Unit {0}} a,
  Map.get-empty {V = MemoryStackAccount} a,
)
contains_key-resets ((k, v) ∷ m) a s = ground (
  arith,
  contains_key-resets m a s.1,
  Map.contains_key_lem (resets m) a,
  Map.contains_key_lem (Map.insert (resets m) k tt) a,
  Map.get-cons m k a v,
  Map.get-insert (resets m) k a tt,
  get-IsAfter k m s.0 s.1,
  bytes_eq_iff k a,
)

get-remove_resets :
    (storages : Map (H160 × H256) H256) (m : Map H160 MemoryStackAccount) (a : H160) (k : H256)
    → IsSorted m
    → Map.get (remove_resets storages (resets m)) (a, k)
      ≡ (if is_reset (Map.get m a) then none else Map.get storages (a, k))
unfolding remove_resets
get-remove_resets storages m a k s =
    rw
      (
        Map.get-remove_all-keys_with (λ j. Map.contains_key (resets m) j.0) storages (a, k),
        contains_key-resets m a s,
      )
      refl

-- What a merged frame and those under it know of an account.
pub known_account_in-merge :
    (parent exited : Frame) (rest : List Frame) (a : H160)
    → known_account_in (merge parent exited ∷ rest) a ≡ known_account_in (exited ∷ parent ∷ rest) a
unfolding merge known_account_in
known_account_in-merge parent exited rest a =
    ground (arith, Map.get-append parent.accounts exited.accounts a)

pub deleted_in-merge :
    (parent exited : Frame) (rest : List Frame) (a : H160)
    → deleted_in (merge parent exited ∷ rest) a ≡ deleted_in (exited ∷ parent ∷ rest) a
unfolding merge deleted_in
deleted_in-merge parent exited rest a = ground (
  arith,
  Map.get-append parent.deletes exited.deletes a,
  Map.contains_key_lem parent.deletes a,
  Map.contains_key_lem exited.deletes a,
  Map.contains_key_lem (Map.append parent.deletes exited.deletes) a,
)

-- Whether the child has an account, which is not reset, and the parent has it reset.
abbrev pub hides_reset : Option MemoryStackAccount → Option MemoryStackAccount → Bool
hides_reset child parent = Map.is_some child && not (is_reset child) && is_reset parent

pub known_storage_in-merge :
    (parent exited : Frame) (rest : List Frame) (a : H160) (k : H256)
    → IsSorted exited.accounts
    → hides_reset (Map.get exited.accounts a) (Map.get parent.accounts a) ≡ false
    → known_storage_in (merge parent exited ∷ rest) a k
      ≡ known_storage_in (exited ∷ parent ∷ rest) a k
unfolding merge known_storage_in
known_storage_in-merge parent exited rest a k s h = ground (
  arith,
  Map.get-append parent.accounts exited.accounts a,
  Map.get-append (remove_resets parent.storages (resets exited.accounts)) exited.storages (a, k),
  get-remove_resets parent.storages exited.accounts a k s,
)

pub known_original_storage_in-merge :
    (parent exited : Frame) (rest : List Frame) (a : H160) (k : H256)
    → hides_reset (Map.get exited.accounts a) (Map.get parent.accounts a) ≡ false
    → known_original_storage_in (merge parent exited ∷ rest) a k
      ≡ known_original_storage_in (exited ∷ parent ∷ rest) a k
unfolding merge known_original_storage_in
known_original_storage_in-merge parent exited rest a k h =
    ground (arith, Map.get-append parent.accounts exited.accounts a)

-- The logs of the frames, those of the oldest one first.
abbrev pub all_logs : List Frame → List Log
all_logs [] = []
all_logs (f ∷ fs) = all_logs fs ++ f.logs

pub all_logs-merge :
    (parent exited : Frame) (rest : List Frame)
    → all_logs (merge parent exited ∷ rest) ≡ all_logs (exited ∷ parent ∷ rest)
unfolding merge
all_logs-merge parent exited rest = sym (append_assoc (all_logs rest) parent.logs exited.logs)

pub hidden_reset-merge :
    (parent exited : Frame) (rest : List Frame) (a : H160) (k : H256)
    → IsSorted exited.accounts
    → hides_reset (Map.get exited.accounts a) (Map.get parent.accounts a) ≡ true
    → Map.is_some (Map.get exited.storages (a, k)) || Map.is_some (Map.get parent.storages (a, k))
      ≡ false
    → (known_storage_in (exited ∷ parent ∷ rest) a k ≡ some zero_h256)
      × (known_storage_in (merge parent exited ∷ rest) a k ≡ known_storage_in rest a k)
unfolding merge known_storage_in
hidden_reset-merge parent exited rest a k s h w = ground (
  arith,
  Map.get-append parent.accounts exited.accounts a,
  Map.get-append (remove_resets parent.storages (resets exited.accounts)) exited.storages (a, k),
  get-remove_resets parent.storages exited.accounts a k s,
)
