-- ===== src/Executor/Stack/Inner/Undone.antt =====
-- src/executor/stack/mod.rs: what is seen after the parts of calls that fail, and of those that are static.
use sputnikvm.Base.{
  ℕ, Bool, true, false, ◌&&◌, ◌||◌, not, Option, none, some, ok, err, ◌≡◌, refl, if◌then◌else◌,
}
use sputnikvm.Base.Result.{Result}
use sputnikvm.Base.Outcome.{Outcome, IsFine, fine, panicked, returned}
use sputnikvm.PrimitiveTypes.{U256Ops}
use sputnikvm.Core.Error.{ExitError}
use sputnikvm.Gasometer.Meter as Gasometer
use sputnikvm.Gasometer.Meter.{Gasometer}
use sputnikvm.Executor.StackState as StackState
use sputnikvm.Executor.StackState.{MemoryStackState}
use sputnikvm.Executor.StackState.Child.{
  Left, left, exit_commit-Left, exit_revert-Left, exit_discard-Left,
}
use sputnikvm.Executor.StackState.Quiet.{SameView, HasFunds}
use sputnikvm.Executor.StackState.Quiet.Undone.{
  IsRestored, IsRestored-same, IsRestored-then, ExitsTo, exits_to, exit_commit-ExitsTo,
  exit_revert-ExitsTo, exit_discard-ExitsTo,
}
use sputnikvm.Executor.Stack.{
  StackExecutor, succeeded, reverted, failed, exited, with_state, enter_substate, exit_substate,
  set_gasometer, gas,
}
use sputnikvm.Executor.Stack.Inner.{leave, on_recorded, after_gas, reserve_from, reserve}
use sputnikvm.Executor.Stack.Goes.{Goes, static_now}

pub set_gasometer-IsRestored :
    (e : StackExecutor) (g : Gasometer) → IsRestored e.state (set_gasometer e g).state
unfolding set_gasometer StackState.set_metadata
set_gasometer-IsRestored e g = record { same = refl }

on_recorded-IsRestored :
    (e : StackExecutor) (r : Gasometer.Recorded) (f : StackExecutor → ℕ)
    → IsRestored e.state (on_recorded e r f).1.state
unfolding on_recorded
on_recorded-IsRestored e (ok u, g) f = set_gasometer-IsRestored e g
on_recorded-IsRestored e (err x, g) f = set_gasometer-IsRestored e g

IsRestored-if :
    (e : StackExecutor) (b : Bool) (x y : Result ExitError ℕ × StackExecutor)
    → IsRestored e.state x.1.state
    → IsRestored e.state y.1.state
    → IsRestored e.state (if b then x else y).1.state
IsRestored-if e true x y k l = k
IsRestored-if e false x y k l = l

after_gas-IsRestored :
    (e : StackExecutor) (take_l64 : Bool) → IsRestored e.state (after_gas e take_l64).1.state
unfolding after_gas
after_gas-IsRestored e take_l64 =
    IsRestored-if e (not (take_l64 && e.config.call_l64_after_gas)) _ _ (IsRestored-same e.state) (
      IsRestored-if e e.config.estimate _ _ (on_recorded-IsRestored e _ gas)
        (IsRestored-same e.state))

reserve_from-IsRestored :
    (e : StackExecutor) (target_gas : Option ℕ) (a : Result ExitError ℕ × StackExecutor)
    → IsRestored e.state a.1.state
    → IsRestored e.state (reserve_from target_gas a).1.state
unfolding reserve_from
reserve_from-IsRestored e target_gas (err x, f) v = v
reserve_from-IsRestored e target_gas (ok available, f) v =
    IsRestored-then v (on_recorded-IsRestored f _ _)

-- Reserving the gas of a call or a creation changes only the metadata.
pub reserve-IsRestored :
    (e : StackExecutor) (target_gas : Option ℕ) (take_l64 : Bool)
    → IsRestored e.state (reserve e target_gas take_l64).1.state
unfolding reserve
reserve-IsRestored e target_gas take_l64 =
    reserve_from-IsRestored e target_gas _ (after_gas-IsRestored e take_l64)

ExitsTo-holds :
    {P : StackState.MemoryStackState → Type 0} {t : MemoryStackState}
    {r : Result ExitError (Unit {0})}
    → ExitsTo P (some (r, t))
    → P t
ExitsTo-holds (exits_to _ _ v) = v

module _ ⦃U : U256Ops⦄ where
  -- There is no panic, the executor has gone through operations, and it is as before but for its metadata.
  abbrev pub UndoneFrom :
      (C : Type 0) {A : Type 0} → StackExecutor → Outcome (A × StackExecutor) → Type 0
  UndoneFrom C {A = A} e o =
      IsFine C {A = A × StackExecutor} (λ x. Goes e x.1 × IsRestored e.state x.1.state) o

  undone_lem :
      {C A : Type 0} (e f : StackExecutor) (a : A) {c : Option StackState.Changed}
      → f.config ≡ e.config
      → f.precompile ≡ e.precompile
      → Left e.state c
      → ExitsTo (IsRestored e.state) c
      → UndoneFrom C e
          (elim (exited f c) [ none ↦ panicked | some answered ↦ returned (a, answered.1) ])
  unfolding exited with_state
  undone_lem e f a h k (left r s n) (exits_to _ _ v) =
      fine _ (record { config = h; precompile = k; nested = n }, v)

  committed_lem :
      {C A : Type 0} (e f : StackExecutor) (a : A) {c : Option StackState.Changed} {P Q : Type 0}
      → f.config ≡ e.config
      → f.precompile ≡ e.precompile
      → Left e.state c
      → (P → Q → ExitsTo (SameView e.state) c)
      → IsFine C {A = A × StackExecutor}
          (λ x. Goes e x.1 × (x.0 ≡ a) × (P → Q → SameView e.state x.1.state))
          (elim (exited f c) [ none ↦ panicked | some answered ↦ returned (a, answered.1) ])
  unfolding exited with_state
  committed_lem e f a h k (left r s n) u =
      fine _ (record { config = h; precompile = k; nested = n }, refl, λ b c. ExitsTo-holds (u b c))

  module _ {C A : Type 0} {e f : StackExecutor} (gas_limit : ℕ) (is_static : Bool)
      (g : Goes (enter_substate e gas_limit is_static) f) (a : A) where
    -- A substate that is reverted or discarded leaves the state as it was but for its metadata.
    pub leave-reverted : UndoneFrom C e (leave f reverted a)
    unfolding leave exit_substate enter_substate
    leave-reverted =
        undone_lem e f a g.config g.precompile
          (exit_revert-Left e.state f.state gas_limit is_static g.nested)
          (exit_revert-ExitsTo e.state f.state gas_limit is_static g.nested)

    pub leave-failed : UndoneFrom C e (leave f failed a)
    unfolding leave exit_substate enter_substate
    leave-failed =
        undone_lem e f a g.config g.precompile
          (exit_discard-Left e.state f.state gas_limit is_static g.nested)
          (exit_discard-ExitsTo e.state f.state gas_limit is_static g.nested)

    -- A substate that is committed is not seen if it was static.
    pub leave-succeeded :
        IsFine C {A = A × StackExecutor}
          (λ x.
            Goes e x.1
            × (x.0 ≡ a)
            × ((is_static || static_now e) ≡ true → HasFunds e.state → SameView e.state x.1.state))
          (leave f succeeded a)
    unfolding leave exit_substate enter_substate
    leave-succeeded =
        committed_lem e f a g.config g.precompile
          (exit_commit-Left e.state f.state gas_limit is_static g.nested)
          (exit_commit-ExitsTo e.state f.state gas_limit is_static g.nested)
