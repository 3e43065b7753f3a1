-- ===== src/Executor/StackState/Child.antt =====
-- src/executor/stack/state.rs: a substate that is entered, goes through operations, and is exited.
use sputnikvm.Base.{ℕ, Bool, ◌||◌, refl, ◌∷◌, Option, some, ◌≡◌}
use sputnikvm.Base.Result.{Result}
use sputnikvm.Core.Error.{ExitError}
use sputnikvm.PrimitiveTypes.{U256Ops}
use sputnikvm.Executor.Metadata
use sputnikvm.Executor.State as State
use sputnikvm.Executor.State.Nesting.{Run}
use sputnikvm.Executor.State.Nesting.Discard.{Run-Inside}
use sputnikvm.Executor.State.Nesting.Exits.{
  exit_commit-IsSome, exit_revert-IsSome, exit_discard-IsSome,
}
use sputnikvm.Executor.StackState as StackState
use sputnikvm.Executor.StackState.{MemoryStackState, Changed}
use sputnikvm.Executor.StackState.Nested.{Nested, static_state}

-- A substate is static if it is entered so, or from a static one.
pub enter-static :
    (s : MemoryStackState) (gas_limit : ℕ) (is_static : Bool)
    → static_state (StackState.enter s gas_limit is_static) ≡ (is_static || static_state s)
unfolding StackState.enter State.enter Metadata.spit_child
enter-static s gas_limit is_static = refl

module _ ⦃U : U256Ops⦄ where
  -- An exit that there is a result of, from which on the parent has been gone through.
  pub data Left (s : MemoryStackState) : Option Changed → Type 0 where
    left :
        (r : Result ExitError (Unit {0})) (t : MemoryStackState) → Nested s t → Left s (some (r, t))

  module _ (s t : MemoryStackState) (gas_limit : ℕ) (is_static : Bool)
      (n : Nested (StackState.enter s gas_limit is_static) t) where
    pub child_parents : t.substate.parents ≡ s.substate.top ∷ s.substate.parents
    unfolding StackState.enter State.enter
    child_parents = (Run-Inside n.run).parents

    pub exit_commit-Left : Left s (StackState.exit_commit t)
    unfolding StackState.exit_commit StackState.exited StackState.changed StackState.enter
        State.enter Metadata.spit_child
    exit_commit-Left =
        let (r, u, e) = exit_commit-IsSome _ _ t.substate child_parents in
        rw (e, StackState.exit_commit)
          (left r _ record {
            backend = n.backend;
            run = Run.committed gas_limit is_static r n.run e (Run.done _ _);
          })

    pub exit_revert-Left : Left s (StackState.exit_revert t)
    unfolding StackState.exit_revert StackState.exited StackState.changed StackState.enter
        State.enter Metadata.spit_child
    exit_revert-Left =
        let (r, u, e) = exit_revert-IsSome _ _ t.substate child_parents in
        rw (e, StackState.exit_revert)
          (left r _ record {
            backend = n.backend;
            run = Run.reverted gas_limit is_static r n.run e (Run.done _ _);
          })

    pub exit_discard-Left : Left s (StackState.exit_discard t)
    unfolding StackState.exit_discard StackState.exited StackState.changed StackState.enter
        State.enter Metadata.spit_child
    exit_discard-Left =
        let (r, u, e) = exit_discard-IsSome _ _ t.substate child_parents in
        rw (e, StackState.exit_discard)
          (left r _ record {
            backend = n.backend;
            run = Run.discarded gas_limit is_static r n.run e (Run.done _ _);
          })
