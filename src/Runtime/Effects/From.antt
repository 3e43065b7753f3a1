-- ===== src/Runtime/Effects/From.antt =====
-- runtime/src/eval/system.rs: what the system opcodes make of the handler.
use sputnikvm.Base.{ℕ, Bool, false, ◌||◌, List, [], Option, none, ◌≡◌, ◌⊎◌, inl, inr, refl, ap, ◌∙◌}
use sputnikvm.Base.Outcome.{IsFine-map}
use sputnikvm.PrimitiveTypes.{U256Ops, H160, H256}
use sputnikvm.Core.Error as Error
use sputnikvm.Core.Error.{Capture, ExitReason}
use sputnikvm.Runtime.Context as Context
use sputnikvm.Runtime.Context.{CallScheme, CreateScheme, Context, Transfer, PaysNothing}
use sputnikvm.Runtime.Trait.{HandlerTrait, Created, Called}
use sputnikvm.Runtime.Laws.{Laws}
use sputnikvm.Runtime.Act.{ask, on_handler}
use sputnikvm.Runtime.Act.From.{From, act_rules, From-ask, From-on_handler}
use sputnikvm.Runtime.Act.FromAt.{
  FromAt, FromAt-set_return_data, FromAt-pop_value, FromAt-pop_u256, FromAt-given, ZeroAt,
  ZeroAt-pop, ZeroAt-popped,
}
use sputnikvm.Runtime.Effects.{
  sstore, log, suicide, end_create, after_create, create, end_call, after_call, call,
  is_static_call, call_transfer, call_value,
}

module _ ⦃U : U256Ops⦄ {C H CreateInterrupt CallInterrupt : Type 0}
    {T : HandlerTrait H CreateInterrupt CallInterrupt} {static : H → Bool} {Good : H → Type 0}
    {R : H → H → Type 0} (L : Laws C T static Good R) (h : H) where
  From-after_create : (c : Capture Created CreateInterrupt) → From C R h (after_create T c)
  unfolding after_create end_create
  From-after_create (Error.exit (Error.succeed s, a, d)) = search act_rules depth 12
  From-after_create (Error.exit (Error.revert s, a, d)) = search act_rules depth 12
  From-after_create (Error.exit (Error.error s, a, d)) = search act_rules depth 12
  From-after_create (Error.exit (Error.fatal s, a, d)) = search act_rules depth 12
  From-after_create (Error.trap i) = search act_rules depth 12

  From-after_call :
      (offset len : ℕ) (c : Capture Called CallInterrupt) → From C R h (after_call T offset len c)
  unfolding after_call end_call
  From-after_call offset len (Error.exit (Error.succeed s, d)) = search act_rules depth 12
  From-after_call offset len (Error.exit (Error.revert s, d)) = search act_rules depth 12
  From-after_call offset len (Error.exit (Error.error s, d)) = search act_rules depth 12
  From-after_call offset len (Error.exit (Error.fatal s, d)) = search act_rules depth 12
  From-after_call offset len (Error.trap i) = search act_rules depth 12

  module _ (free : static h ≡ false) where
    From-set_storage :
        (a : H160) (k v : H256)
        → From C R h (
            on_handler {CreateInterrupt = CreateInterrupt} {CallInterrupt = CallInterrupt}
              (λ i. T.set_storage i a k v))
    From-set_storage a k v =
        From-on_handler _ (λ i k'. L.then k' (L.set_storage i a k v (L.same_static k' ∙ free)))

    From-log :
        (a : H160) (topics : List H256) (bytes : List ℕ)
        → From C R h (
            on_handler {CreateInterrupt = CreateInterrupt} {CallInterrupt = CallInterrupt}
              (λ i. T.log i a topics bytes))
    From-log a topics bytes =
        From-on_handler _ (λ i k. L.then k (L.log i a topics bytes (L.same_static k ∙ free)))

    From-mark_delete :
        (a target : H160)
        → From C R h (
            on_handler {CreateInterrupt = CreateInterrupt} {CallInterrupt = CallInterrupt}
              (λ i. T.mark_delete i a target))
    From-mark_delete a target =
        From-on_handler _ (λ i k. L.then k (L.mark_delete i a target (L.same_static k ∙ free)))

    pub From-sstore : From C R h (sstore T)
    unfolding sstore
    From-sstore = search (act_rules, From-set_storage) depth 12

    pub From-log_op : (n : ℕ) → From C R h (log T n)
    unfolding log
    From-log_op n = search (act_rules, From-log) depth 12

    pub From-suicide : From C R h (suicide T)
    unfolding suicide
    From-suicide = search (act_rules, From-mark_delete) depth 12

    module _ (good : Good h) where
      From-ask_create :
          (caller : H160) (scheme : CreateScheme) (value : ℕ) (code : List ℕ)
          → From C R h (
              ask {CreateInterrupt = CreateInterrupt} {CallInterrupt = CallInterrupt}
                (λ i. T.create i caller scheme value code none))
      From-ask_create caller scheme value code = From-ask _ (λ i k.
          IsFine-map
            (L.create i caller scheme value code none (L.good k good) (L.same_static k ∙ free))
            (λ x l. L.then k l))

      pub From-create : (keccak256 : List ℕ → H256) (b : Bool) → From C R h (create T keccak256 b)
      unfolding create
      From-create keccak256 b = search (act_rules, From-ask_create, From-after_create) depth 16

  module _ (good : Good h) where
    From-ask_call :
        (a : H160) (transfer : Option Transfer) (input : List ℕ) (gas : Option ℕ) (is_static : Bool)
        (c : Context)
        → ((is_static || static h) ≡ false) ⊎ PaysNothing transfer
        → From C R h (
            ask {CreateInterrupt = CreateInterrupt} {CallInterrupt = CallInterrupt}
              (λ i. T.call i a transfer input gas is_static c))
    From-ask_call a transfer input gas is_static c allowed = From-ask _ (λ i k.
        IsFine-map
          (L.call i a transfer input gas is_static c (L.good k good) (elim allowed [
            | inl e ↦ inl (ap (λ b. is_static || b) (L.same_static k) ∙ e)
            | inr p ↦ inr p
          ]))
          (λ x l. L.then k l))

    -- Where the call is allowed whatever its value is.
    From-call_if :
        (scheme : CallScheme)
        → ((c : Context) (to : H256) (value : ℕ)
            → ((is_static_call scheme || static h) ≡ false)
              ⊎ PaysNothing (call_transfer scheme c to value))
        → From C R h (call T scheme)
    unfolding call
    From-call_if scheme allowed = search (act_rules, From-ask_call, From-after_call) depth 20

    -- A call that finds no value on the stack.
    pub From-call_nothing : FromAt C R h (ZeroAt 2) (call T Context.call)
    unfolding call call_value call_transfer
    From-call_nothing = FromAt-set_return_data (ZeroAt 2) [] _ (
        FromAt-pop_u256 (ZeroAt 2) (λ _. ZeroAt 1) _ (λ s a e z. ZeroAt-pop s a e 1 z)
          λ gas.
            FromAt-pop_value (ZeroAt 1) (λ _. ZeroAt 0) _ (λ s a e z. ZeroAt-pop s a e 0 z)
              λ to.
                FromAt-pop_u256 (ZeroAt 0) (λ value s. value ≡ 0) _
                  (λ s a e z. ZeroAt-popped s a e z)
                  λ value. FromAt-given _ λ zero.
                    let allowed : (c : Context)
                        → ((false || static h) ≡ false)
                          ⊎ PaysNothing (call_transfer Context.call c to value) =
                      λ c. inr (inl zero) in
                    search (act_rules, From-ask_call, From-after_call, allowed) depth 20)

  -- A call by any scheme, from a machine where it is allowed.
  pub From-call : (scheme : CallScheme) → Good h → static h ≡ false → From C R h (call T scheme)
  unfolding call_transfer
  From-call scheme good free = From-call_if good scheme (allowed_free scheme)
    where
      allowed_free :
          (scheme : CallScheme) (c : Context) (to : H256) (value : ℕ)
          → ((is_static_call scheme || static h) ≡ false)
            ⊎ PaysNothing (call_transfer scheme c to value)
      allowed_free Context.call c to value = inl free
      allowed_free Context.call_code c to value = inl free
      allowed_free Context.delegate_call c to value = inl free
      allowed_free Context.static_call c to value = inr tt

  -- The other schemes are allowed in a static machine as well.
  pub From-call_code : Good h → From C R h (call T Context.call_code)
  unfolding call_transfer
  From-call_code good = From-call_if good Context.call_code (λ c to value. inr (inr refl))

  pub From-delegate_call : Good h → From C R h (call T Context.delegate_call)
  unfolding call_transfer
  From-delegate_call good = From-call_if good Context.delegate_call (λ c to value. inr tt)

  pub From-static_call : Good h → From C R h (call T Context.static_call)
  unfolding call_transfer
  From-static_call good = From-call_if good Context.static_call (λ c to value. inr tt)
