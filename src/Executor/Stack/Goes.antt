-- ===== src/Executor/Stack/Goes.antt =====
-- src/executor/stack/mod.rs: what an executor goes through.
use sputnikvm.Base.{ℕ, Bool, true, [], List, Option, some, ok, ◌≡◌, ◌||◌, refl, ◌∙◌}
use sputnikvm.Base.Result.{Result}
use sputnikvm.PrimitiveTypes.{U256Ops, H160}
use sputnikvm.Core.Error.{ExitError}
use sputnikvm.Runtime.Context.{Context}
use sputnikvm.Gasometer.Meter.{Gasometer}
use sputnikvm.Executor.StackState as StackState
use sputnikvm.Executor.StackState.{MemoryStackState}
use sputnikvm.Executor.StackState.Nested as Nested
use sputnikvm.Executor.StackState.Nested.{Nested, static_state, Nested-static, Nested-set_metadata}
use sputnikvm.Executor.StackState.Child.{
  Left, left, enter-static, exit_commit-Left, exit_revert-Left, exit_discard-Left,
}
use sputnikvm.Executor.Stack.{
  StackExecutor, StackExitKind, succeeded, reverted, failed, PrecompileFn, PrecompileOutput,
  Answered, exited, with_state, enter_substate, exit_substate, set_gasometer,
}

abbrev pub static_now : StackExecutor → Bool
static_now e = static_state e.state

module _ ⦃U : U256Ops⦄ where
  -- Precompiled contracts keep to the rules of the state that they are given: they go through operations on it, and answer with no logs where it is static.
  pub record IsOrderly (precompile : PrecompileFn) : Type 0 where
    pub nested :
        (address : H160) (input : List ℕ) (target_gas : Option ℕ) (context : Context)
        (s : MemoryStackState) (is_static : Bool)
        → Nested s (precompile address input target_gas context s is_static).1
    pub quiet :
        (address : H160) (input : List ℕ) (target_gas : Option ℕ) (context : Context)
        (s : MemoryStackState) (is_static : Bool) (out : PrecompileOutput)
        → (precompile address input target_gas context s is_static).0 ≡ some (ok out)
        → static_state s ≡ true
        → out.logs ≡ []

  -- The configuration and the precompiled contracts stay, and the state goes through operations.
  pub record Goes (e f : StackExecutor) : Type 0 where
    pub config : f.config ≡ e.config
    pub precompile : f.precompile ≡ e.precompile
    pub nested : Nested e.state f.state

  pub Goes-static : {e f : StackExecutor} → Goes e f → static_now f ≡ static_now e
  Goes-static g = Nested-static g.nested

  pub done : (e : StackExecutor) → Goes e e
  done e = record { config = refl; precompile = refl; nested = Nested.done e.state }

  pub then : {e f g : StackExecutor} → Goes e f → Goes f g → Goes e g
  then k l = record {
    config = l.config ∙ k.config;
    precompile = l.precompile ∙ k.precompile;
    nested = Nested.then k.nested l.nested;
  }

  pub of_state :
      (e : StackExecutor) {s : MemoryStackState}
      → Nested e.state s
      → Goes e (record e { state = s })
  of_state e n = record { config = refl; precompile = refl; nested = n }

  pub Goes-set_gasometer : (e : StackExecutor) (g : Gasometer) → Goes e (set_gasometer e g)
  unfolding set_gasometer
  Goes-set_gasometer e g = of_state e (Nested-set_metadata e.state _ refl)

  -- An exit that there is an answer of.
  pub data Answers (e : StackExecutor) : Option Answered → Type 0 where
    answers :
        (r : Result ExitError (Unit {0})) (f : StackExecutor) → Goes e f → Answers e (some (r, f))

  Left-Answers :
      {e : StackExecutor} (f : StackExecutor) {c : Option StackState.Changed}
      → f.config ≡ e.config
      → f.precompile ≡ e.precompile
      → Left e.state c
      → Answers e (exited f c)
  unfolding exited with_state
  Left-Answers f h k (left r s n) = answers r _ record { config = h; precompile = k; nested = n }

  module _ (e f : StackExecutor) (gas_limit : ℕ) (is_static : Bool)
      (g : Goes (enter_substate e gas_limit is_static) f) where
    -- The substate that was entered can be exited in every way.
    pub exit_substate-Answers : (kind : StackExitKind) → Answers e (exit_substate f kind)
    unfolding exit_substate enter_substate
    exit_substate-Answers succeeded =
        Left-Answers f g.config g.precompile
          (exit_commit-Left e.state f.state gas_limit is_static g.nested)
    exit_substate-Answers reverted =
        Left-Answers f g.config g.precompile
          (exit_revert-Left e.state f.state gas_limit is_static g.nested)
    exit_substate-Answers failed =
        Left-Answers f g.config g.precompile
          (exit_discard-Left e.state f.state gas_limit is_static g.nested)

    pub inside-static : static_now f ≡ (is_static || static_now e)
    unfolding enter_substate
    inside-static = Goes-static g ∙ enter-static e.state gas_limit is_static

    pub inside-IsOrderly : IsOrderly e.precompile → IsOrderly f.precompile
    unfolding enter_substate
    inside-IsOrderly h = rw g.precompile h
