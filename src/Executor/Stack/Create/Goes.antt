-- ===== src/Executor/Stack/Create/Goes.antt =====
-- src/executor/stack/mod.rs: what a creation goes through.
use sputnikvm.Base.{
  ℕ, Bool, true, false, not, ◌==◌, List, Option, ok, err, ltb, ◌≡◌, ◌∙◌, if◌then◌else◌,
}
use sputnikvm.Base.Result.{Result}
use sputnikvm.Base.Outcome.{IsFine, fine, IsFine-bind_outcome, returned}
use sputnikvm.PrimitiveTypes.{U256Ops, H160}
use sputnikvm.Core.Error.{ExitError, ExitReason, succeed, error, revert, fatal, create_collision}
use sputnikvm.Runtime.Context.{CreateScheme, Transfer}
use sputnikvm.Runtime.Trait.{Created}
use sputnikvm.Runtime.Act.{Runtime}
use sputnikvm.Gasometer.Meter as Gasometer
use sputnikvm.Executor.StackState as StackState
use sputnikvm.Executor.StackState.Nested.{
  Nested, Nested-set_code, Nested-reset_storage, Nested-transfer, Nested-static,
}
use sputnikvm.Executor.StackState.Nested as Nested
use sputnikvm.Executor.Stack.{
  Crates, StackExecutor, succeeded, reverted, failed, Answered, enter_substate, balance,
  create_address, code_size, nonce,
}
use sputnikvm.Executor.Stack.Inner.{Execute, inc_nonce, too_deep, reserve}
use sputnikvm.Executor.Stack.Inner.Goes.{
  FineFrom, inc_nonce-fine, FineFrom-if, from_here, leave-fine, reserve-Goes, Goes-fail,
}
use sputnikvm.Executor.Stack.Goes.{
  IsOrderly, static_now, Goes, Goes-static, done, then as go_on, of_state, Goes-set_gasometer,
  Answers, answers, exit_substate-Answers, inside-static, inside-IsOrderly,
}
use sputnikvm.Executor.Stack.Create.{
  create_fails, store_code, deposited, over_limit, end_create, run_create, enter_create,
  start_create, create_inner,
}

module _ ⦃U : U256Ops⦄ where
  maybe_inc_nonce-fine :
      {C : Type 0} (b : Bool) (e : StackExecutor) (a : H160)
      → static_now e ≡ false
      → C
      → IsFine C (Goes e) (if b then inc_nonce e a else returned e)
  maybe_inc_nonce-fine true e a h c = inc_nonce-fine e a h c
  maybe_inc_nonce-fine false e a h c = fine e (done e)

  -- What is run has no panic, but by an addition where `C` holds or the executor is not static, and goes through operations.
  abbrev pub Executes : Type 0 → Execute → Type 0
  Executes C execute =
      (e : StackExecutor) (runtime : Runtime)
      → IsOrderly e.precompile
      → (static_now e ≡ false → C)
      → IsFine C {A = ExitReason × Runtime × StackExecutor} (λ x. Goes e x.2) (execute e runtime)

  store_code-fine :
      {C : Type 0} {e : StackExecutor} (address : H160) (out : List ℕ) (created : Created)
      {o : Option Answered}
      → static_now e ≡ false
      → Answers e o
      → FineFrom C e (store_code address out created o)
  unfolding store_code
  store_code-fine address out created h (answers (ok u) f g) =
      fine _ (go_on g (of_state f (Nested-set_code f.state (Goes-static g ∙ h) address out)))
  store_code-fine address out created h (answers (err x) f g) =
      fine _ (go_on g (of_state f (Nested-set_code f.state (Goes-static g ∙ h) address out)))

  -- In the substate of the creation.
  abbrev Inside : StackExecutor → ℕ → StackExecutor → Type 0
  Inside e gas_limit f = Goes (enter_substate e gas_limit false) f

  module _ {C : Type 0} (e : StackExecutor) (gas_limit : ℕ) (h : static_now e ≡ false) where
    deposited-fine :
        (f : StackExecutor) (address : H160) (out : List ℕ) (created : Created)
        (r : Gasometer.Recorded)
        → Inside e gas_limit f
        → FineFrom C e (deposited address out created f r)
    unfolding deposited
    deposited-fine f address out created (ok u, m) g =
        store_code-fine address out created h
          (exit_substate-Answers e _ gas_limit false (go_on g (Goes-set_gasometer f m)) succeeded)
    deposited-fine f address out created (err x, m) g =
        leave-fine gas_limit false (go_on g (Goes-set_gasometer f m)) failed _

    end_create-fine :
        (f : StackExecutor) (address : H160) (reason : ExitReason) (runtime : Runtime)
        → Inside e gas_limit f
        → FineFrom C e (end_create address reason runtime f)
    unfolding end_create
    end_create-fine f address (succeed s) runtime g =
        FineFrom-if (over_limit f.config.create_contract_limit _)
          (leave-fine gas_limit false (go_on g (Goes-fail f)) failed _)
          (deposited-fine f address _ _ _ g)
    end_create-fine f address (error x) runtime g =
        leave-fine gas_limit false (go_on g (Goes-fail f)) failed _
    end_create-fine f address (revert r) runtime g = leave-fine gas_limit false g reverted _
    end_create-fine f address (fatal x) runtime g =
        leave-fine gas_limit false (go_on g (Goes-fail f)) failed _

    module _ (execute : Execute) (executes : Executes C execute) (orderly : IsOrderly e.precompile)
        (c : C) where
      run_create-fine :
          (f : StackExecutor) (caller address : H160) (value : ℕ) (init_code : List ℕ)
          (r : StackState.Changed)
          → Inside e gas_limit f
          → Nested f.state r.1
          → FineFrom C e (run_create execute caller address value init_code f r)
      unfolding run_create
      run_create-fine f caller address value init_code (err x, s) g n =
          leave-fine gas_limit false (go_on g (of_state f n)) reverted _
      run_create-fine f caller address value init_code (ok u, s) g n =
          let k = go_on g (of_state f n) in
          let free = inside-static e _ gas_limit false k ∙ h in
          IsFine-bind_outcome _
            (maybe_inc_nonce-fine f.config.create_increase_nonce (record f { state = s }) address
              free c)
            (λ f' i.
              let l = go_on k i in
              IsFine-bind_outcome _
                (executes f' _ (inside-IsOrderly e f' gas_limit false l orderly) (λ _. c))
                (λ x m. end_create-fine x.2 address x.0 x.1 (go_on l m)))

      enter_create-fine :
          (f : StackExecutor) (caller address : H160) (value : ℕ) (init_code : List ℕ)
          → Inside e gas_limit f
          → FineFrom C e (enter_create execute caller address value init_code f)
      unfolding enter_create
      enter_create-fine f caller address value init_code g =
          let k = Nested-reset_storage f.state (inside-static e _ gas_limit false g ∙ h) address in
          let t : Transfer = record { source = caller; target = address; value = value } in
          let fails = leave-fine gas_limit false g failed (create_fails create_collision) in
          FineFrom-if (not (code_size f address == 0)) fails (
            FineFrom-if (ltb 0 (nonce f address)) fails (
              run_create-fine f caller address value init_code
                (StackState.transfer (StackState.reset_storage f.state address) t) g
                (Nested.then k (
                  Nested-transfer _ (Nested-static k ∙ inside-static e _ gas_limit false g ∙ h)
                    t))))

  module _ ⦃crates : Crates⦄ {C : Type 0} (execute : Execute) (executes : Executes C execute)
      (e : StackExecutor) (orderly : IsOrderly e.precompile) (h : static_now e ≡ false)
      (c : C) where
    start_create-fine :
        (caller address : H160) (value : ℕ) (init_code : List ℕ)
        (r : Result ExitError ℕ × StackExecutor)
        → Goes e r.1
        → FineFrom C e (start_create execute caller address value init_code r)
    unfolding start_create
    start_create-fine caller address value init_code (err x, f) g = fine _ g
    start_create-fine caller address value init_code (ok gas_limit, f) g =
        IsFine-bind_outcome _ (inc_nonce-fine f caller (Goes-static g ∙ h) c) (λ f' i.
          let k = go_on g i in
          from_here k (
            enter_create-fine f' gas_limit (Goes-static k ∙ h) execute executes
              (rw k.precompile orderly) c _ caller address value init_code (done _)))

    -- In an executor that is not static, a creation has no panic, but by an addition where `C` holds, and goes through operations.
    pub create_inner-fine :
        (caller : H160) (scheme : CreateScheme) (value : ℕ) (init_code : List ℕ)
        (target_gas : Option ℕ) (take_l64 : Bool)
        → FineFrom C e (create_inner execute e caller scheme value init_code target_gas take_l64)
    unfolding create_inner
    create_inner-fine caller scheme value init_code target_gas take_l64 =
        FineFrom-if (too_deep e) (fine _ (done e)) (
          FineFrom-if (ltb (balance e caller) value) (fine _ (done e)) (
            start_create-fine caller (create_address e scheme) value init_code
              (reserve e target_gas take_l64) (reserve-Goes e target_gas take_l64)))
