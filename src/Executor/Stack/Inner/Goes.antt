-- ===== src/Executor/Stack/Inner/Goes.antt =====
-- src/executor/stack/mod.rs: what the parts of creations and calls go through.
use sputnikvm.Base.{
  ℕ, Bool, true, false, ◌&&◌, not, Option, none, some, ok, err, ◌≡◌, inl, inr, Option-cases,
  if◌then◌else◌,
}
use sputnikvm.Base.Result.{Result}
use sputnikvm.Base.Outcome.{Outcome, IsFine, fine, overflow, no_fuel, panicked, returned}
use sputnikvm.PrimitiveTypes.{U256Ops, H160}
use sputnikvm.Core.Error.{ExitError}
use sputnikvm.Gasometer.Meter as Gasometer
use sputnikvm.Executor.StackState as StackState
use sputnikvm.Executor.StackState.Nested.{Nested-inc_nonce}
use sputnikvm.Executor.Stack.{StackExecutor, StackExitKind, Answered, enter_substate, gas}
use sputnikvm.Executor.Stack.Inner.{
  inc_nonce, leave, fail, on_recorded, after_gas, reserve_from, reserve,
}
use sputnikvm.Executor.Stack.Goes.{
  Goes, static_now, of_state, done, then as go_on, Goes-set_gasometer, Answers, answers,
  exit_substate-Answers,
}

module _ ⦃U : U256Ops⦄ where
  pub Goes-fail : (e : StackExecutor) → Goes e (fail e)
  unfolding fail
  Goes-fail e = Goes-set_gasometer e _

  on_recorded-Goes :
      (e : StackExecutor) (r : Gasometer.Recorded) (f : StackExecutor → ℕ)
      → Goes e (on_recorded e r f).1
  unfolding on_recorded
  on_recorded-Goes e (ok u, g) f = Goes-set_gasometer e g
  on_recorded-Goes e (err x, g) f = Goes-set_gasometer e g

  Goes-if :
      {e : StackExecutor} (b : Bool) (x y : Result ExitError ℕ × StackExecutor)
      → Goes e x.1
      → Goes e y.1
      → Goes e (if b then x else y).1
  Goes-if true x y k l = k
  Goes-if false x y k l = l

  after_gas-Goes : (e : StackExecutor) (take_l64 : Bool) → Goes e (after_gas e take_l64).1
  unfolding after_gas
  after_gas-Goes e take_l64 =
      Goes-if (not (take_l64 && e.config.call_l64_after_gas)) _ _ (done e)
        (Goes-if e.config.estimate _ _ (on_recorded-Goes e _ gas) (done e))

  reserve_from-Goes :
      (e : StackExecutor) (target_gas : Option ℕ) (a : Result ExitError ℕ × StackExecutor)
      → Goes e a.1
      → Goes e (reserve_from target_gas a).1
  unfolding reserve_from
  reserve_from-Goes e target_gas (err x, f) g = g
  reserve_from-Goes e target_gas (ok available, f) g = go_on g (on_recorded-Goes f _ _)

  pub reserve-Goes :
      (e : StackExecutor) (target_gas : Option ℕ) (take_l64 : Bool)
      → Goes e (reserve e target_gas take_l64).1
  unfolding reserve
  reserve-Goes e target_gas take_l64 = reserve_from-Goes e target_gas _ (after_gas-Goes e take_l64)

  -- There is no panic, but by an addition where `C` holds, and the executor that is returned has gone through operations.
  abbrev pub FineFrom :
      (C : Type 0) {A : Type 0} → StackExecutor → Outcome (A × StackExecutor) → Type 0
  FineFrom C {A = A} e o = IsFine C {A = A × StackExecutor} (λ x. Goes e x.1) o

  -- From an executor that has gone through operations.
  pub from_here :
      {C A : Type 0} {e f : StackExecutor} {o : Outcome (A × StackExecutor)}
      → Goes e f
      → FineFrom C f o
      → FineFrom C e o
  from_here k (fine x g) = fine x (go_on k g)
  from_here k (overflow c) = overflow c
  from_here k no_fuel = no_fuel

  pub FineFrom-if :
      {C A : Type 0} {e : StackExecutor} (b : Bool) {o p : Outcome (A × StackExecutor)}
      → FineFrom C e o
      → FineFrom C e p
      → FineFrom C e (if b then o else p)
  FineFrom-if true k l = k
  FineFrom-if false k l = l

  left-fine :
      {C A : Type 0} {e : StackExecutor} (a : A) {o : Option Answered}
      → Answers e o
      → FineFrom C e (elim o [ none ↦ panicked | some answered ↦ returned (a, answered.1) ])
  left-fine a (answers r f g) = fine _ g

  pub leave-fine :
      {C A : Type 0} {e f : StackExecutor} (gas_limit : ℕ) (is_static : Bool)
      → Goes (enter_substate e gas_limit is_static) f
      → (kind : StackExitKind) (a : A) → FineFrom C e (leave f kind a)
  unfolding leave
  leave-fine gas_limit is_static g kind a =
      left-fine a (exit_substate-Answers _ _ gas_limit is_static g kind)

  -- What the increase of a nonce goes through.
  pub inc_nonce-fine :
      {C : Type 0} (e : StackExecutor) (a : H160)
      → static_now e ≡ false
      → C
      → IsFine C (Goes e) (inc_nonce e a)
  unfolding inc_nonce
  inc_nonce-fine e a h c = elim (Option-cases (StackState.inc_nonce e.state a)) [
    | inl k ↦ rw (k, inc_nonce) (overflow c)
    | inr (s, k) ↦ rw (k, inc_nonce) (fine _ (of_state e (Nested-inc_nonce e.state h a s k)))
  ]
