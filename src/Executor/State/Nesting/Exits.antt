-- ===== src/Executor/State/Nesting/Exits.antt =====
-- src/executor/stack/state.rs: a substate that has a parent can be exited.
use sputnikvm.Base.{List, ◌∷◌, some, ok, err, ◌≡◌, refl, sym, arith}
use sputnikvm.Base.Result.{Result}
use sputnikvm.Core.Error.{ExitError}
use sputnikvm.Executor.Metadata
use sputnikvm.Executor.Metadata.{StackSubstateMetadata}
use sputnikvm.Executor.State.Commit.{exited_state}
use sputnikvm.Executor.State.{
  Frame, Exited, MemoryStackSubstate, exit_commit, exit_revert, exit_discard, commit, with_metadata,
}

-- There is a result.
abbrev pub IsSome : Exited → Type 0
IsSome o = (r : Result ExitError (Unit {0})) × (u : MemoryStackSubstate) × (o ≡ some (r, u))

commit-IsSome :
    (parent exited : Frame) (rest : List Frame) (m : Metadata.Swallowed)
    → IsSome (commit parent exited rest m)
unfolding commit
commit-IsSome parent exited rest (ok u, m) = (_, _, refl)
commit-IsSome parent exited rest (err x, m) = (_, _, refl)

with_metadata-IsSome :
    (parent : Frame) (rest : List Frame) (m : Metadata.Swallowed)
    → IsSome (with_metadata parent rest m)
unfolding with_metadata
with_metadata-IsSome parent rest (r, m) = (_, _, refl)

module _ (parent : Frame) (rest : List Frame) (s : MemoryStackSubstate)
    (p : s.parents ≡ parent ∷ rest) where
  pub exit_commit-IsSome : IsSome (exit_commit s)
  unfolding exit_commit
  exit_commit-IsSome = rw (p, exit_commit) (commit-IsSome parent s.top rest _)

  pub exit_revert-IsSome : IsSome (exit_revert s)
  unfolding exit_revert
  exit_revert-IsSome = rw (p, exit_revert) (with_metadata-IsSome parent rest _)

  pub exit_discard-IsSome : IsSome (exit_discard s)
  unfolding exit_discard
  exit_discard-IsSome = rw (p, exit_discard) (with_metadata-IsSome parent rest _)

-- The parent is current again, and only its metadata may have changed.
pub data Back (parent : Frame) (rest : List Frame) : MemoryStackSubstate → Type 0 where
  back :
      (m : StackSubstateMetadata)
      → Back parent rest record { top = record parent { metadata = m }; parents = rest }

commit-Back :
    (parent exited : Frame) (rest : List Frame) (m : Metadata.Swallowed) (x : ExitError)
    (u : MemoryStackSubstate)
    → commit parent exited rest m ≡ some (err x, u)
    → Back parent rest u
unfolding commit
commit-Back parent exited rest (ok v, m) x u h = ground arith
commit-Back parent exited rest (err y, m) x u h = rw (sym (exited_state h)) (back m)

with_metadata-Back :
    (parent : Frame) (rest : List Frame) (m : Metadata.Swallowed) (r : Result ExitError (Unit {0}))
    (u : MemoryStackSubstate)
    → with_metadata parent rest m ≡ some (r, u)
    → Back parent rest u
unfolding with_metadata
with_metadata-Back parent rest (q, m) r u h = rw (sym (exited_state h)) (back m)

module _ (parent : Frame) (rest : List Frame) (s u : MemoryStackSubstate)
    (p : s.parents ≡ parent ∷ rest) where
  pub exit_commit-Back : (x : ExitError) → exit_commit s ≡ some (err x, u) → Back parent rest u
  unfolding exit_commit
  exit_commit-Back x h = commit-Back parent s.top rest _ x u (rw p at h)

  pub exit_revert-Back :
      (r : Result ExitError (Unit {0})) → exit_revert s ≡ some (r, u) → Back parent rest u
  unfolding exit_revert
  exit_revert-Back r h = with_metadata-Back parent rest _ r u (rw p at h)

  pub exit_discard-Back :
      (r : Result ExitError (Unit {0})) → exit_discard s ≡ some (r, u) → Back parent rest u
  unfolding exit_discard
  exit_discard-Back r h = with_metadata-Back parent rest _ r u (rw p at h)
