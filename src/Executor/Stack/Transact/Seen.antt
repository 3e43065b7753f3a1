-- ===== src/Executor/Stack/Transact/Seen.antt =====
-- src/executor/stack/mod.rs: what is seen after executions and calls.
use sputnikvm.Base.{ℕ, Bool, true, false, ◌||◌, List, Option, ◌≡◌, ◌⊎◌, Bool-cases, inl, inr, arith}
use sputnikvm.Base.Outcome.{IsFine, IsFine-map}
use sputnikvm.PrimitiveTypes.{U256Ops, H160}
use sputnikvm.Core.Error.{ExitReason, is_succeed}
use sputnikvm.Runtime.Context.{Context, Transfer, PaysNothing}
use sputnikvm.Runtime.Trait.{Called}
use sputnikvm.Runtime.Act.{Runtime}
use sputnikvm.Executor.StackState.Quiet.{SameView, HasFunds}
use sputnikvm.Executor.StackState.Quiet.Undone.{IsRestored}
use sputnikvm.Executor.StackState.Quiet.Runs.{Nested-SameView}
use sputnikvm.Executor.Stack.{Crates, StackExecutor}
use sputnikvm.Executor.Stack.Goes.{IsOrderly, Goes, static_now}
use sputnikvm.Executor.Stack.Call.{call_inner}
use sputnikvm.Executor.Stack.Call.Goes.{call_inner-fine}
use sputnikvm.Executor.Stack.Transact.{execute}
use sputnikvm.Executor.Stack.Transact.Goes.{execute-Executes}

not_free : {b : Bool} → b ≡ true → b ≡ false → ⊥
not_free e h = ground arith

module _ ⦃U : U256Ops⦄ ⦃crates : Crates⦄ (fuel : ℕ) (e : StackExecutor)
    (orderly : IsOrderly e.precompile) where
  -- In a static substate, with orderly precompiled contracts and every balance a `U256`, executing any code
  -- for any number of steps, its calls and creations included, does not panic, and leaves every account
  -- with the balance, the nonce, the code and the deletion, and the substates with the logs, that they are
  -- seen to have before.
  pub execute-SameView :
      (runtime : Runtime)
      → static_now e ≡ true
      → HasFunds e.state
      → IsFine ⊥ {A = ExitReason × Runtime × StackExecutor}
          (λ x. SameView e.state x.2.state)
          (execute fuel e runtime)
  execute-SameView runtime static funds =
      IsFine-map (execute-Executes fuel e runtime orderly (not_free static))
        (λ x g. Nested-SameView e.state x.2.state static funds g.nested)

  -- A call with orderly precompiled contracts, which transfers nothing or for a substate that is
  -- not static, whatever it executes and for how many steps, never exits the root substate, which
  -- would panic, and does not let a nonce overflow if it is static or comes from a static
  -- executor. Where it returns, its substates have been entered and exited in pairs, and it
  -- succeeds, or the backend and all substates, with the accounts, storages, deletions and logs
  -- that they record, are what they were before it, but for the metadata of the current substate.
  pub call_inner-undone :
      (code_address : H160) (transfer : Option Transfer) (input : List ℕ) (target_gas : Option ℕ)
      (is_static take_l64 take_stipend : Bool) (context : Context)
      → ((is_static || static_now e) ≡ false) ⊎ PaysNothing transfer
      → IsFine
          ((is_static || static_now e) ≡ false)
          {A = Called × StackExecutor}
          (λ x. Goes e x.1 × ((is_succeed x.0.0 ≡ true) ⊎ IsRestored e.state x.1.state))
          (call_inner
            (execute fuel)
            e
            code_address
            transfer
            input
            target_gas
            is_static
            take_l64
            take_stipend
            context)
  call_inner-undone code_address transfer input target_gas is_static take_l64 take_stipend context
        allowed =
      IsFine-map
        (call_inner-fine (execute fuel) (execute-Executes fuel) e orderly transfer is_static allowed
          (λ h. h) code_address input target_gas take_l64 take_stipend context)
        (λ x k. (k.0, elim (Bool-cases (is_succeed x.0.0)) [ inl h ↦ inl h | inr h ↦ inr (k.1 h) ]))

  -- A call that is static or comes from a static executor, that pays nothing, with orderly precompiled
  -- contracts and every balance a `U256`: whether it succeeds or not, it does not panic, and every account
  -- has the balance, the nonce, the code and the deletion, and the substates have the logs, that they were
  -- seen to have before it.
  pub call_inner-SameView :
      (code_address : H160) (transfer : Option Transfer) (input : List ℕ) (target_gas : Option ℕ)
      (is_static take_l64 take_stipend : Bool) (context : Context)
      → (is_static || static_now e) ≡ true
      → PaysNothing transfer
      → HasFunds e.state
      → IsFine ⊥ {A = Called × StackExecutor}
          (λ x. SameView e.state x.1.state)
          (call_inner
            (execute fuel)
            e
            code_address
            transfer
            input
            target_gas
            is_static
            take_l64
            take_stipend
            context)
  call_inner-SameView code_address transfer input target_gas is_static take_l64 take_stipend context
        static pays funds =
      IsFine-map
        (call_inner-fine (execute fuel) (execute-Executes fuel) e orderly transfer is_static
          (inr pays) (not_free static) code_address input target_gas take_l64 take_stipend context)
        (λ x k. k.2 static funds)
