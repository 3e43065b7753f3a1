-- ===== src/Executor/State/Kept.antt =====
-- src/executor/stack/state.rs: what a substate knows after its child has been committed.
use sputnikvm.Base.{Bool, true, false, ◌||◌, [], ◌∷◌, some, ok, ◌≡◌}
use sputnikvm.Base.Key.{bytes_key, pair_key}
use sputnikvm.Base.Map
use sputnikvm.Base.Map.{Map, Set}
use sputnikvm.Base.Map.Sorted.{IsSorted}
use sputnikvm.PrimitiveTypes.{H160, H256, zero_h256}
use sputnikvm.Executor.State.{MemoryStackSubstate, exit_commit, merge}
use sputnikvm.Executor.State.Known.{
  known_account, known_account_in, known_storage, known_storage_in, known_original_storage,
  known_original_storage_in, deleted, deleted_in, frames,
}
use sputnikvm.Executor.State.Commit.{
  Commits, commits, exit_commit-Commits, hides_reset, all_logs, known_account_in-merge,
  deleted_in-merge, known_storage_in-merge, known_original_storage_in-merge, all_logs-merge,
  hidden_reset-merge,
}

-- Where the current substate has an account that is not reset over one of its parent that is.
abbrev pub hides_parent_reset : MemoryStackSubstate → H160 → Bool
hides_parent_reset s a = elim s.parents [
  | [] ↦ false
  | parent ∷ rest ↦ hides_reset (Map.get s.top.accounts a) (Map.get parent.accounts a)
]

Commits-known :
    {s t : MemoryStackSubstate} (a : H160)
    → Commits s t
    → (known_account t a ≡ known_account s a)
      × (deleted t a ≡ deleted s a)
      × (all_logs (frames t) ≡ all_logs (frames s))
unfolding known_account deleted known_account_in deleted_in merge
Commits-known a (commits exited parent rest m) = (
  known_account_in-merge (record parent { metadata = m }) exited rest a,
  deleted_in-merge (record parent { metadata = m }) exited rest a,
  all_logs-merge parent exited rest,
)

-- A substate that commits without an error hands on to its parent every account, every deletion and
-- every log, in their order: what is known of them is the same after the commit as before.
pub exit_commit-known :
    (s t : MemoryStackSubstate) (a : H160)
    → exit_commit s ≡ some (ok tt, t)
    → (known_account t a ≡ known_account s a)
      × (deleted t a ≡ deleted s a)
      × (all_logs (frames t) ≡ all_logs (frames s))
exit_commit-known s t a h = Commits-known a (exit_commit-Commits s t h)

Commits-known_storage :
    {s t : MemoryStackSubstate} (a : H160) (k : H256)
    → Commits s t
    → IsSorted s.top.accounts
    → hides_parent_reset s a ≡ false
    → (known_storage t a k ≡ known_storage s a k)
      × (known_original_storage t a k ≡ known_original_storage s a k)
unfolding known_storage known_original_storage known_storage_in known_original_storage_in
Commits-known_storage a k (commits exited parent rest m) sorted kept = (
  known_storage_in-merge (record parent { metadata = m }) exited rest a k sorted kept,
  known_original_storage_in-merge (record parent { metadata = m }) exited rest a k kept,
)

-- The storage that is known of an account, and its original storage, are the same after a commit
-- without an error as before, if the map of the accounts of the current substate is sorted and that
-- substate does not have the account unreset where its parent has it reset.
pub exit_commit-known_storage :
    (s t : MemoryStackSubstate) (a : H160) (k : H256)
    → exit_commit s ≡ some (ok tt, t)
    → IsSorted s.top.accounts
    → hides_parent_reset s a ≡ false
    → (known_storage t a k ≡ known_storage s a k)
      × (known_original_storage t a k ≡ known_original_storage s a k)
exit_commit-known_storage s t a k h = Commits-known_storage a k (exit_commit-Commits s t h)

-- Whether the current substate or its parent has a value for a place of the storage.
abbrev pub writes_storage : MemoryStackSubstate → H160 → H256 → Bool
writes_storage s a k = elim s.parents [
  | [] ↦ Map.is_some (Map.get s.top.storages (a, k))
  | parent ∷ rest ↦
      Map.is_some (Map.get s.top.storages (a, k)) || Map.is_some (Map.get parent.storages (a, k))
]

Commits-hidden_reset :
    {s t : MemoryStackSubstate} (a : H160) (k : H256)
    → Commits s t
    → IsSorted s.top.accounts
    → hides_parent_reset s a ≡ true
    → writes_storage s a k ≡ false
    → (known_storage s a k ≡ some zero_h256)
      × (known_storage t a k ≡ known_storage_in t.parents a k)
unfolding known_storage known_storage_in
Commits-hidden_reset a k (commits exited parent rest m) sorted hidden unwritten =
    hidden_reset-merge (record parent { metadata = m }) exited rest a k sorted hidden unwritten

-- A commit without an error forgets a reset of the storage: where the current substate, whose map of
-- accounts is sorted, has the account unreset over a parent that has it reset, and neither has a value
-- for the place, the place is zero before the commit, and what the remaining parents know afterwards.
pub exit_commit-hidden_reset :
    (s t : MemoryStackSubstate) (a : H160) (k : H256)
    → exit_commit s ≡ some (ok tt, t)
    → IsSorted s.top.accounts
    → hides_parent_reset s a ≡ true
    → writes_storage s a k ≡ false
    → (known_storage s a k ≡ some zero_h256)
      × (known_storage t a k ≡ known_storage_in t.parents a k)
exit_commit-hidden_reset s t a k h = Commits-hidden_reset a k (exit_commit-Commits s t h)
