-- ===== src/Executor/StackState/Quiet/Undone.antt =====
-- src/executor/stack/state.rs: what is seen after a substate that is exited.
use sputnikvm.Base.{ℕ, Bool, true, ◌||◌, ◌∷◌, ◌∙◌, Option, some, ap, ◌≡◌, refl, sym, subst}
use sputnikvm.Base.Result.{Result}
use sputnikvm.Core.Error.{ExitError}
use sputnikvm.PrimitiveTypes.{U256Ops}
use sputnikvm.Backend.{Backend}
use sputnikvm.Executor.State.{MemoryStackSubstate, exit_commit}
use sputnikvm.Executor.State.Nesting.Exits.{
  Back, back, exit_commit-IsSome, exit_revert-IsSome, exit_discard-IsSome, exit_revert-Back,
  exit_discard-Back,
}
use sputnikvm.Executor.StackState as StackState
use sputnikvm.Executor.StackState.{MemoryStackState, Changed}
use sputnikvm.Executor.StackState.Nested.{Nested, static_state}
use sputnikvm.Executor.StackState.Child.{child_parents, enter-static}
use sputnikvm.Executor.StackState.Quiet.{SameView, HasFunds, HasFunds-SameView, afterwards}
use sputnikvm.Executor.StackState.Quiet.Runs.{
  over, metadata-SameView, enter-SameView, commit-SameView, Nested-SameView,
}

-- The state is as before but for the metadata of the current substate.
pub record IsRestored (s t : MemoryStackState) : Type 0 where
  pub same : t ≡ StackState.set_metadata s t.substate.top.metadata

pub IsRestored-same : (s : MemoryStackState) → IsRestored s s
unfolding StackState.set_metadata
IsRestored-same s = record { same = refl }

pub IsRestored-then : {s t u : MemoryStackState} → IsRestored s t → IsRestored t u → IsRestored s u
unfolding StackState.set_metadata
IsRestored-then {u = u} k l = record {
  same = l.same ∙ ap (λ x. StackState.set_metadata x u.substate.top.metadata) k.same;
}

pub IsRestored-SameView : {s t : MemoryStackState} → IsRestored s t → SameView s t
unfolding StackState.set_metadata
IsRestored-SameView {s} {t} k =
    subst (SameView s) (sym k.same) (metadata-SameView s.backend s.substate t.substate.top.metadata)

-- An exit that there is a result of, with a state of which `P` holds.
pub data ExitsTo (P : MemoryStackState → Type 0) : Option Changed → Type 0 where
  exits_to :
      (r : Result ExitError (Unit {0})) (t : MemoryStackState) → P t → ExitsTo P (some (r, t))

Back-over :
    (s : MemoryStackState) (b : Backend) (u : MemoryStackSubstate)
    → b ≡ s.backend
    → Back s.substate.top s.substate.parents u
    → IsRestored s (over b u)
unfolding StackState.set_metadata
Back-over s b u e (back m) = record {
  same = ap (λ b. over b (record s.substate { top = record s.substate.top { metadata = m } })) e;
}

commit-over :
    (s : MemoryStackState) (b : Backend) (t u : MemoryStackSubstate)
    (r : Result ExitError (Unit {0}))
    → b ≡ s.backend
    → t.parents ≡ s.substate.top ∷ s.substate.parents
    → exit_commit t ≡ some (r, u)
    → SameView s (over b t)
    → SameView s (over b u)
commit-over s b t u r e p h v =
    subst (λ b. SameView s (over b t) → SameView s (over b u)) (sym e)
      (commit-SameView s.backend s.substate t u r p h) v

module _ ⦃U : U256Ops⦄ (s t : MemoryStackState) (gas_limit : ℕ) (is_static : Bool)
    (n : Nested (StackState.enter s gas_limit is_static) t) where
  pub exit_revert-ExitsTo : ExitsTo (IsRestored s) (StackState.exit_revert t)
  unfolding StackState.exit_revert StackState.exited StackState.changed StackState.enter
  exit_revert-ExitsTo =
      let p = child_parents s t gas_limit is_static n in
      let (r, u, e) = exit_revert-IsSome _ _ t.substate p in
      rw (e, StackState.exit_revert)
        (exits_to r _ (Back-over s t.backend u n.backend (exit_revert-Back _ _ t.substate u p r e)))

  pub exit_discard-ExitsTo : ExitsTo (IsRestored s) (StackState.exit_discard t)
  unfolding StackState.exit_discard StackState.exited StackState.changed StackState.enter
  exit_discard-ExitsTo =
      let p = child_parents s t gas_limit is_static n in
      let (r, u, e) = exit_discard-IsSome _ _ t.substate p in
      rw (e, StackState.exit_discard)
        (exits_to r _
          (Back-over s t.backend u n.backend (exit_discard-Back _ _ t.substate u p r e)))

  -- What is committed from a static substate is not seen.
  pub exit_commit-ExitsTo :
      (is_static || static_state s) ≡ true
      → HasFunds s
      → ExitsTo (SameView s) (StackState.exit_commit t)
  unfolding StackState.exit_commit StackState.exited StackState.changed StackState.enter
  exit_commit-ExitsTo static funds =
      let p = child_parents s t gas_limit is_static n in
      let w = enter-SameView s.backend s.substate gas_limit is_static in
      let v =
        Nested-SameView (StackState.enter s gas_limit is_static) t
          (enter-static s gas_limit is_static ∙ static) (HasFunds-SameView w funds) n in
      let (r, u, e) = exit_commit-IsSome _ _ t.substate p in
      rw (e, StackState.exit_commit)
        (exits_to r _ (commit-over s t.backend t.substate u r n.backend p e (afterwards w v)))
