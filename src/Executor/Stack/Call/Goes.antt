-- ===== src/Executor/Stack/Call/Goes.antt =====
-- src/executor/stack/mod.rs: what a call goes through.
use sputnikvm.Base.{
  ℕ, Bool, true, false, ◌||◌, List, [], ◌∷◌, Option, none, some, ok, err, ◌≡◌, ◌⊎◌, inl, inr, refl,
  sym, ap, ◌∙◌, if◌then◌else◌, Bool-cases, arith,
}
use sputnikvm.Base.Result.{Result}
use sputnikvm.Base.Outcome.{Outcome, IsFine, fine, IsFine-bind_outcome, IsFine-map}
use sputnikvm.PrimitiveTypes.{U256Ops, H160}
use sputnikvm.Core.Error.{
  ExitError, ExitReason, ExitSucceed, is_succeed, is_succeed-succeed, succeed, error, revert, fatal,
}
use sputnikvm.Runtime.Context.{Context, Transfer, PaysNothing}
use sputnikvm.Runtime.Trait.{Called}
use sputnikvm.Runtime.Act.{Runtime}
use sputnikvm.Backend.{Log}
use sputnikvm.Executor.StackState as StackState
use sputnikvm.Executor.StackState.{MemoryStackState}
use sputnikvm.Executor.StackState.Nested.{
  Nested, static_state, Nested-touch, Nested-log, Nested-transfer, Nested-transfer_nothing,
  Nested-static,
}
use sputnikvm.Executor.StackState.Nested as Nested
use sputnikvm.Executor.Stack.{StackExecutor, Answered, PrecompileOutput, enter_substate, log}
use sputnikvm.Executor.Stack.Inner.{Execute, on_state, too_deep}
use sputnikvm.Executor.Stack.Inner.Goes.{reserve-Goes, Goes-fail}
use sputnikvm.Executor.Stack.Inner.Undone.{
  UndoneFrom, leave-succeeded, leave-reverted, leave-failed, reserve-IsRestored,
}
use sputnikvm.Executor.StackState.Quiet.{SameView, HasFunds, HasFunds-SameView, afterwards}
use sputnikvm.Executor.StackState.Quiet.Undone.{IsRestored, IsRestored-then, IsRestored-SameView}
use sputnikvm.Executor.Stack.Goes.{
  IsOrderly, static_now, Goes, Goes-static, done, then as go_on, of_state, Goes-set_gasometer,
  inside-static, inside-IsOrderly,
}
use sputnikvm.Executor.Stack.Create.Goes.{Executes}
use sputnikvm.Executor.Stack.Call.{
  with_stipend, log_all, precompiled, end_call, after_precompile, run_call, transferred, enter_call,
  start_call, call_inner,
}

module _ ⦃U : U256Ops⦄ where
  -- Logs that have all been recorded.
  data Logged (f : StackExecutor) : Answered → Type 0 where
    logged : (g : StackExecutor) → Goes f g → Logged f (ok tt, g)

  Logged-then : {f g : StackExecutor} {a : Answered} → Goes f g → Logged g a → Logged f a
  Logged-then k (logged g l) = logged g (go_on k l)

  log_all-Logged :
      (f : StackExecutor) (logs : List Log) → static_now f ≡ false → Logged f (log_all f logs)
  unfolding log_all log
  log_all-Logged f [] h = logged f (done f)
  log_all-Logged f (l ∷ logs) h =
      let k = of_state f (Nested-log f.state h l.address l.topics l.bytes) in
      Logged-then k (
        log_all-Logged (on_state f λ s. StackState.log s l.address l.topics l.bytes) logs
          (Goes-static k ∙ h))

  log_none-Logged : (f : StackExecutor) (logs : List Log) → logs ≡ [] → Logged f (log_all f logs)
  unfolding log_all
  log_none-Logged f logs h = rw h (logged f (done f))

  -- What a call returns: it has gone through operations, and if it did not succeed the state is as before but
  -- for the metadata, and if it is static everything is seen as before.
  abbrev pub CallFine : Type 0 → Bool → StackExecutor → Outcome (Called × StackExecutor) → Type 0
  CallFine C is_static e o =
      IsFine C {A = Called × StackExecutor}
        (λ x.
          Goes e x.1
          × (is_succeed x.0.0 ≡ false → IsRestored e.state x.1.state)
          × ((is_static || static_now e) ≡ true → HasFunds e.state → SameView e.state x.1.state))
        o

  undone :
      {C : Type 0} (i : Bool) {e : StackExecutor} {o : Outcome (Called × StackExecutor)}
      → UndoneFrom C e o
      → CallFine C i e o
  undone i u = IsFine-map u (λ x k. (k.0, λ h. k.1, λ h funds. IsRestored-SameView k.1))

  true-false : true ≡ false → ⊥
  true-false h = ground arith

  finished :
      {e : StackExecutor} (s : ExitSucceed) (out : List ℕ) {o : Outcome (Called × StackExecutor)}
      {C P Q : Type 0}
      → IsFine C {A = Called × StackExecutor}
          (λ x. Goes e x.1 × (x.0 ≡ (succeed s, out)) × (P → Q → SameView e.state x.1.state))
          o
      → IsFine C {A = Called × StackExecutor}
          (λ x.
            Goes e x.1
            × (is_succeed x.0.0 ≡ false → IsRestored e.state x.1.state)
            × (P → Q → SameView e.state x.1.state))
          o
  finished s out k = IsFine-map k (λ x l.
      let succeeded : is_succeed x.0.0 ≡ true =
        ap (λ c. is_succeed c.0) l.1 ∙ is_succeed-succeed s in
      (l.0, λ h. elim (true-false (sym succeeded ∙ h)) [ ], l.2))

  CallFine-if :
      {C : Type 0} (i : Bool) {e : StackExecutor} (b : Bool)
      {o p : Outcome (Called × StackExecutor)}
      → CallFine C i e o
      → CallFine C i e p
      → CallFine C i e (if b then o else p)
  CallFine-if i true k l = k
  CallFine-if i false k l = l

  from_reserved :
      {C : Type 0} (i : Bool) {e f : StackExecutor} {o : Outcome (Called × StackExecutor)}
      → Goes e f
      → IsRestored e.state f.state
      → CallFine C i f o
      → CallFine C i e o
  from_reserved i g v k = IsFine-map k (λ x l. (
    go_on g l.0,
    λ h. IsRestored-then v (l.1 h),
    λ h funds. afterwards (IsRestored-SameView v) (
        l.2 (ap (λ b. i || b) (Goes-static g) ∙ h)
          (HasFunds-SameView (IsRestored-SameView v) funds)),
  ))

  Nested-transferred :
      (transfer : Option Transfer) (s : MemoryStackState)
      → (static_state s ≡ false) ⊎ PaysNothing transfer
      → Nested s (transferred transfer s).1
  unfolding transferred
  Nested-transferred none s h = Nested.done s
  Nested-transferred (some t) s (inl h) = Nested-transfer s h t
  Nested-transferred (some t) s (inr h) = Nested-transfer_nothing s t h

  -- In the substate of the call.
  abbrev Inside : StackExecutor → ℕ → Bool → StackExecutor → Type 0
  Inside e gas_limit is_static f = Goes (enter_substate e gas_limit is_static) f

  module _ {C : Type 0} (e : StackExecutor) (gas_limit : ℕ) (is_static : Bool) where
    precompiled-fine :
        {f : StackExecutor} {a : Answered} (out : PrecompileOutput)
        → Inside e gas_limit is_static f
        → Logged f a
        → CallFine C is_static e (precompiled out a)
    unfolding precompiled
    precompiled-fine out g (logged f l) =
        finished out.exit_status _
          (leave-succeeded gas_limit is_static (go_on g (go_on l (Goes-set_gasometer f _))) _)

    end_call-fine :
        (f : StackExecutor) (reason : ExitReason) (runtime : Runtime)
        → Inside e gas_limit is_static f
        → CallFine C is_static e (end_call reason runtime f)
    unfolding end_call
    end_call-fine f (succeed s) runtime g = finished s _ (leave-succeeded gas_limit is_static g _)
    end_call-fine f (error x) runtime g = undone is_static (leave-failed gas_limit is_static g _)
    end_call-fine f (revert r) runtime g = undone is_static (leave-reverted gas_limit is_static g _)
    end_call-fine f (fatal x) runtime g =
        undone is_static (leave-failed gas_limit is_static (go_on g (Goes-fail f)) _)

    module _ (execute : Execute) (executes : Executes C execute) (orderly : IsOrderly e.precompile)
        (may : (is_static || static_now e) ≡ false → C) where
      after_precompile-fine :
          (f : StackExecutor) (code input : List ℕ) (context : Context)
          (a : Option (Result ExitError PrecompileOutput) × MemoryStackState)
          → Inside e gas_limit is_static f
          → Nested f.state a.1
          → ((out : PrecompileOutput) → a.0 ≡ some (ok out) → static_now f ≡ true → out.logs ≡ [])
          → CallFine C is_static e (after_precompile execute code input context f a)
      unfolding after_precompile
      after_precompile-fine f code input context (some (ok out), s) g n quiet =
          let k = of_state f n in
          precompiled-fine out (go_on g k) (elim (Bool-cases (static_now f)) [
            | inl h ↦ log_none-Logged _ out.logs (quiet out refl h)
            | inr h ↦ log_all-Logged _ out.logs (Goes-static k ∙ h)
          ])
      after_precompile-fine f code input context (some (err x), s) g n quiet =
          undone is_static (leave-failed gas_limit is_static (go_on g (of_state f n)) _)
      after_precompile-fine f code input context (none, s) g n quiet =
          let k = go_on g (of_state f n) in
          IsFine-bind_outcome _
            (executes _ _ (inside-IsOrderly e _ gas_limit is_static k orderly)
              (λ h. may (sym (inside-static e _ gas_limit is_static k) ∙ h)))
            (λ x m. end_call-fine x.2 x.0 x.1 (go_on k m))

      run_call-fine :
          (f : StackExecutor) (code_address : H160) (code input : List ℕ) (limit : ℕ)
          (context : Context) (c : StackState.Changed)
          → Inside e gas_limit is_static f
          → Nested f.state c.1
          → CallFine C is_static e
              (run_call execute code_address code input limit is_static context f c)
      unfolding run_call
      run_call-fine f code_address code input limit context (err x, s) g n =
          undone is_static (leave-reverted gas_limit is_static (go_on g (of_state f n)) _)
      run_call-fine f code_address code input limit context (ok u, s) g n =
          let o = inside-IsOrderly e f gas_limit is_static g orderly in
          let p = o.nested code_address input (some limit) context s is_static in
          after_precompile-fine f code input context _ g (Nested.then n p) (λ out q h.
            o.quiet code_address input (some limit) context s is_static out q (Nested-static n ∙ h))

      enter_call-fine :
          (f : StackExecutor) (code_address : H160) (code : List ℕ) (transfer : Option Transfer)
          (input : List ℕ) (limit : ℕ) (context : Context)
          → Inside e gas_limit is_static f
          → ((is_static || static_now e) ≡ false) ⊎ PaysNothing transfer
          → CallFine C is_static e
              (enter_call execute code_address code transfer input limit is_static context f)
      unfolding enter_call
      enter_call-fine f code_address code transfer input limit context g c =
          CallFine-if is_static (too_deep f)
            (undone is_static (leave-reverted gas_limit is_static g _))
            (run_call-fine f code_address code input limit context _ g (
              Nested-transferred transfer f.state (elim c [
                | inl h ↦ inl (inside-static e f gas_limit is_static g ∙ h)
                | inr h ↦ inr h
              ])))

  module _ {C : Type 0} (execute : Execute) (executes : Executes C execute) (e : StackExecutor)
      (orderly : IsOrderly e.precompile) (transfer : Option Transfer) (is_static : Bool)
      (c : ((is_static || static_now e) ≡ false) ⊎ PaysNothing transfer)
      (may : (is_static || static_now e) ≡ false → C) where
    start_call-fine :
        (code_address : H160) (input : List ℕ) (take_stipend : Bool) (context : Context)
        (r : Result ExitError ℕ × StackExecutor)
        → Goes e r.1
        → IsRestored e.state r.1.state
        → CallFine C is_static e
            (start_call execute code_address transfer input is_static take_stipend context r)
    unfolding start_call
    start_call-fine code_address input take_stipend context (err x, f) g v =
        fine _ (g, λ h. v, λ h funds. IsRestored-SameView v)
    start_call-fine code_address input take_stipend context (ok gas_limit, f) g v =
        let limit = with_stipend f transfer take_stipend gas_limit in
        from_reserved is_static g v (
          enter_call-fine f limit is_static execute executes (rw g.precompile orderly)
            (λ h. may (sym (ap (λ b. is_static || b) (Goes-static g)) ∙ h)) _ code_address _
            transfer input limit context
            (of_state _ (Nested-touch (enter_substate f limit is_static).state context.address))
            (elim c [ inl h ↦ inl (rw (Goes-static g) h) | inr h ↦ inr h ]))

    -- A call that transfers nothing, or that neither is static nor comes from a static executor, has
    -- no panic, but by an addition where `C` holds, and goes through operations.
    pub call_inner-fine :
        (code_address : H160) (input : List ℕ) (target_gas : Option ℕ)
        (take_l64 take_stipend : Bool) (context : Context)
        → CallFine C is_static e (
            call_inner execute e code_address transfer input target_gas is_static take_l64
              take_stipend context)
    unfolding call_inner
    call_inner-fine code_address input target_gas take_l64 take_stipend context =
        start_call-fine code_address input take_stipend context _
          (reserve-Goes e target_gas take_l64) (reserve-IsRestored e target_gas take_l64)
