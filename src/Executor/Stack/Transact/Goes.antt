-- ===== src/Executor/Stack/Transact/Goes.antt =====
-- src/executor/stack/mod.rs: what executions and transactions go through.
use sputnikvm.Base.{
  ℕ, zero, suc, Bool, true, false, ◌||◌, sym, arith, List, [], some, ok, err, ◌≡◌, ◌∙◌, inl,
}
use sputnikvm.Base.Outcome.{Outcome, fine, no_fuel, IsFine-bind_outcome, IsFine-map}
use sputnikvm.PrimitiveTypes.{U256Ops, H160, H256}
use sputnikvm.Core.Error as Error
use sputnikvm.Core.Error.{ExitReason}
use sputnikvm.Core.Opcode.{Opcode}
use sputnikvm.Core.Stack as Core
use sputnikvm.Runtime.Context.{CreateScheme, Context}
use sputnikvm.Runtime.Trait.{default_other}
use sputnikvm.Runtime.Laws.{Laws}
use sputnikvm.Runtime.Step as Runtime
use sputnikvm.Runtime.Step.From.{run-fine}
use sputnikvm.Gasometer.Cost.{TransactionCost, call_transaction_cost, create_transaction_cost}
use sputnikvm.Executor.StackState as StackState
use sputnikvm.Executor.StackState.Nested as Nested
use sputnikvm.Executor.StackState.Nested.{
  Nested, Nested-static, Nested-set_storage, Nested-log, Nested-transfer, Nested-reset_balance,
  Nested-set_deleted,
}
use sputnikvm.Executor.Stack.{
  Crates, StackExecutor, Answered, set_storage, log, mark_delete, deleted_after, pre_validate,
  recorded,
}
use sputnikvm.Executor.Stack.Validate.{pre_validate-static, pre_validate_rest}
use sputnikvm.Executor.Stack.Inner.{Execute}
use sputnikvm.Executor.Stack.Inner.Goes.{FineFrom, inc_nonce-fine, from_here}
use sputnikvm.Executor.Stack.Goes.{
  IsOrderly, static_now, Goes, Goes-static, done, then as go_on, of_state, Goes-set_gasometer,
}
use sputnikvm.Executor.Stack.Create.Goes.{Executes, create_inner-fine}
use sputnikvm.Executor.Stack.Call.Goes.{call_inner-fine}
use sputnikvm.Executor.Stack.Transact.{
  reason_of, exits, stack_handler, execute, after_transaction, charge, reason_only, charged_create,
  charged_call, create_transaction, transact_create, transact_create2, transact_call,
}

module _ ⦃U : U256Ops⦄ where
  deleted_after-Goes :
      (e : StackExecutor) (address : H160) (c : StackState.Changed)
      → static_now e ≡ false
      → Nested e.state c.1
      → Goes e (deleted_after e address c).1
  unfolding deleted_after
  deleted_after-Goes e address (err x, s) h n = of_state e n
  deleted_after-Goes e address (ok u, s) h n =
      let k = Nested.then n (Nested-reset_balance s (Nested-static n ∙ h) address) in
      of_state e (Nested.then k (Nested-set_deleted _ (Nested-static k ∙ h) address))

  mark_delete-Goes :
      (e : StackExecutor) (address target : H160)
      → static_now e ≡ false
      → Goes e (mark_delete e address target).1
  unfolding mark_delete
  mark_delete-Goes e address target h =
      deleted_after-Goes e address _ h (Nested-transfer e.state h _)

  exits-fine :
      {C A : Type 0} {e : StackExecutor} {o : Outcome (A × StackExecutor)}
      → FineFrom C e o
      → FineFrom C e (exits o)
  exits-fine k = IsFine-bind_outcome _ k (λ x g. fine _ g)

module _ ⦃U : U256Ops⦄ ⦃crates : Crates⦄ where
  pre_validate-Goes :
      (e : StackExecutor) (c : Context) (o : Opcode) (s : Core.Stack)
      → Goes e (pre_validate e c o s).1
  pre_validate-Goes e c o s = rw (pre_validate_rest e c o s) (Goes-set_gasometer e _)

  -- The precompiled contracts are orderly, and an addition may panic if the executor is not static.
  abbrev Ready : Type 0 → StackExecutor → Type 0
  Ready C e = IsOrderly e.precompile × (static_now e ≡ false → C)

  free_inside : (i b : Bool) → (i || b) ≡ false → b ≡ false
  free_inside i b h = ground arith

  -- The executor, as a handler, obeys the laws of what it goes through.
  pub stack_handler-Laws :
      {C : Type 0} (execute : Execute)
      → Executes C execute
      → Laws C (stack_handler execute) static_now (Ready C) Goes
  unfolding stack_handler set_storage log default_other
  stack_handler-Laws execute executes = record {
    done = done;
    then = go_on;
    same_static = Goes-static;
    good = λ k ready. (rw k.precompile ready.0, λ h. ready.1 (sym (Goes-static k) ∙ h));
    pre_validate = pre_validate-Goes;
    guard = pre_validate-static;
    set_storage = λ e a k v h. of_state e (Nested-set_storage e.state h a k v);
    log = λ e a topics bytes h. of_state e (Nested-log e.state h a topics bytes);
    mark_delete = mark_delete-Goes;
    create = λ e caller scheme value code gas ready h. exits-fine (
        create_inner-fine execute executes e ready.0 h (ready.1 h) caller scheme value code gas
          true);
    call = λ e a transfer input gas is_static c ready allowed. exits-fine (
        IsFine-map
          (call_inner-fine execute executes e ready.0 transfer is_static allowed
            (λ h. ready.1 (free_inside is_static _ h)) a input gas true true c)
          (λ x k. k.0));
    other = λ e o m. done e;
  }

  reason_of-Goes :
      (e : StackExecutor) (x : Runtime.Ran StackExecutor ⊥ ⊥) → Goes e x.2 → Goes e (reason_of x).2
  reason_of-Goes e (Error.exit reason, r, f) g = g
  reason_of-Goes e (Error.trap (Runtime.create i), r, f) g = elim i [ ]
  reason_of-Goes e (Error.trap (Runtime.call i), r, f) g = elim i [ ]

  -- However much fuel there is, the execution of any code does not panic, but by an addition where `C` holds or the executor is not static, and goes through operations.
  pub execute-Executes : {C : Type 0} (fuel : ℕ) → Executes C (execute fuel)
  unfolding execute
  execute-Executes zero e runtime orderly may = no_fuel
  execute-Executes (suc fuel) e runtime orderly may =
      IsFine-bind_outcome _
        (run-fine (stack_handler-Laws (execute fuel) (execute-Executes fuel)) crates.keccak256
          (suc fuel) runtime e (orderly, may))
        (λ x g. fine _ (reason_of-Goes e x g))

  after_transaction-fine :
      {C A : Type 0} {e : StackExecutor} (a : Answered) (fails : ExitReason → A)
      (f : StackExecutor → Outcome (A × StackExecutor))
      → Goes e a.1
      → ((e' : StackExecutor) → Goes e e' → FineFrom C e' (f e'))
      → FineFrom C e (after_transaction a fails f)
  unfolding after_transaction
  after_transaction-fine (ok u, f) fails k g h = from_here g (h f g)
  after_transaction-fine (err x, f) fails k g h = fine _ g

  charge-Goes : (e : StackExecutor) (cost : TransactionCost) → Goes e (charge e cost).1
  unfolding charge recorded
  charge-Goes e cost = Goes-set_gasometer e _

  module _ (fuel : ℕ) (e : StackExecutor) (orderly : IsOrderly e.precompile)
      (free : static_now e ≡ false) where
    charged_create-fine :
        (caller : H160) (scheme : CreateScheme) (value : ℕ) (init_code : List ℕ) (gas_limit : ℕ)
        → FineFrom (Unit {0}) e (charged_create fuel caller scheme value init_code gas_limit e)
    unfolding charged_create reason_only
    charged_create-fine caller scheme value init_code gas_limit =
        IsFine-bind_outcome reason_only
          (create_inner-fine (execute fuel) (execute-Executes fuel) e orderly free tt caller scheme
            value init_code (some gas_limit) false)
          (λ x l. fine _ l)

    charged_call-fine :
        (caller address : H160) (value : ℕ) (input : List ℕ) (gas_limit : ℕ)
        → FineFrom (Unit {0}) e (charged_call fuel caller address value input gas_limit e)
    unfolding charged_call
    charged_call-fine caller address value input gas_limit =
        IsFine-bind_outcome _ (inc_nonce-fine e caller free tt) (λ f k. from_here k (
          IsFine-map
            (call_inner-fine (execute fuel) (execute-Executes fuel) f (rw k.precompile orderly) _
              false (inl (Goes-static k ∙ free)) (λ _. tt) address input (some gas_limit) false
              false _)
            (λ x l. l.0)))

  module _ (fuel : ℕ) (e : StackExecutor) (orderly : IsOrderly e.precompile)
      (free : static_now e ≡ false) where
    create_transaction-fine :
        (caller : H160) (scheme : CreateScheme) (value : ℕ) (init_code : List ℕ) (gas_limit : ℕ)
        → FineFrom (Unit {0}) e (create_transaction fuel e caller scheme value init_code gas_limit)
    unfolding create_transaction
    create_transaction-fine caller scheme value init_code gas_limit =
        after_transaction-fine (charge e (create_transaction_cost init_code)) (λ reason. reason)
          (charged_create fuel caller scheme value init_code gas_limit)
          (charge-Goes e (create_transaction_cost init_code))
          (λ f g.
            charged_create-fine fuel f (rw g.precompile orderly) (Goes-static g ∙ free) caller
              scheme value init_code gas_limit)

    call_transaction-fine :
        (caller address : H160) (value : ℕ) (input : List ℕ) (gas_limit : ℕ)
        → FineFrom (Unit {0}) e (transact_call fuel e caller address value input gas_limit)
    unfolding transact_call
    call_transaction-fine caller address value input gas_limit =
        after_transaction-fine (charge e (call_transaction_cost input)) (λ reason. (reason, []))
          (charged_call fuel caller address value input gas_limit)
          (charge-Goes e (call_transaction_cost input))
          (λ f g.
            charged_call-fine fuel f (rw g.precompile orderly) (Goes-static g ∙ free) caller address
              value input gas_limit)

    -- Whatever the fuel is, a transaction of an executor that is not static, whose precompiled
    -- contracts are orderly, never exits the root substate, which would panic: CREATE, CREATE2 and
    -- CALL enter and exit their substates in pairs, change neither the configuration, the
    -- precompiled contracts nor the backend, and return to the substate that they started in, over
    -- the same parents. The panic of a nonce that overflows is let through.
    pub transact-fine :
        (caller : H160) (value : ℕ) (bytes : List ℕ) (gas_limit : ℕ) (salt : H256) (address : H160)
        → FineFrom (Unit {0}) e (transact_create fuel e caller value bytes gas_limit)
          × FineFrom (Unit {0}) e (transact_create2 fuel e caller value bytes salt gas_limit)
          × FineFrom (Unit {0}) e (transact_call fuel e caller address value bytes gas_limit)
    unfolding transact_create transact_create2
    transact-fine caller value bytes gas_limit salt address = (
      create_transaction-fine caller _ value bytes gas_limit,
      create_transaction-fine caller _ value bytes gas_limit,
      call_transaction-fine caller address value bytes gas_limit,
    )
