-- ===== src/Tests/Calls.antt =====
-- src/executor/stack/mod.rs: executions, calls and transactions of concrete executors.
use sputnikvm.Base.{
  ℕ, List, true, false, ◌∷◌, [], none, some, ◌≡◌, ◌⊎◌, refl, Bool-cases, inl, inr, arith,
}
use sputnikvm.Base.Key.{bytes_eq, bytes_key}
use sputnikvm.Base.Outcome.{IsFine}
use sputnikvm.Base.Map
use sputnikvm.PrimitiveTypes.{zero_h256}
use sputnikvm.PrimitiveTypes.Native.{native_ops}
use sputnikvm.Core.Error.{ExitReason, is_succeed}
use sputnikvm.Runtime.Config.{istanbul}
use sputnikvm.Runtime.Context.{Transfer}
use sputnikvm.Runtime.Trait.{Called}
use sputnikvm.Runtime.Act as Runtime
use sputnikvm.Runtime.Act.{Runtime}
use sputnikvm.Backend.{default_basic}
use sputnikvm.Executor.State.Known.{known_basic, known_account, known_account_in}
use sputnikvm.Executor.StackState as StackState
use sputnikvm.Executor.StackState.Nested as Nested
use sputnikvm.Gasometer.Meter as Gasometer
use sputnikvm.Executor.StackState.Quiet.Undone.{IsRestored}
use sputnikvm.Executor.StackState.Quiet.{SameView, HasFunds}
use sputnikvm.Executor.Stack.{StackExecutor, PrecompileFn}
use sputnikvm.Executor.Stack.Inner.Goes.{FineFrom}
use sputnikvm.Executor.Stack.Goes.{IsOrderly, Goes}
use sputnikvm.Executor.Stack.Call.{call_inner}
use sputnikvm.Executor.Stack.Transact.{execute, transact_create, transact_create2, transact_call}
use sputnikvm.Executor.Stack.Transact.Goes.{transact-fine}
use sputnikvm.Executor.Stack.Transact.Seen.{
  execute-SameView, call_inner-undone, call_inner-SameView,
}
use sputnikvm.Tests.State.{alice, bob, backend, parent, account}
use sputnikvm.Tests.Executor.{crates, executor, context}

-- Precompiled contracts that touch the account that is called, and leave it to its code.
abbrev touching : PrecompileFn
touching address _ _ _ state _ = (none, StackState.touch state address)

touching-IsOrderly : IsOrderly touching
touching-IsOrderly = record {
  nested = λ address _ _ _ s _. Nested.Nested-touch s address;
  quiet = λ _ _ _ _ _ _ _ h k. ground arith;
}

-- The static executor with these contracts, and one that is not static.
abbrev static_executor : StackExecutor
static_executor = record executor {
  precompile = touching;
  state = record executor.state { backend = record backend { basic = λ _. default_basic } };
}

abbrev free_executor : StackExecutor
free_executor = record static_executor {
  state = record static_executor.state { substate = record { top = parent; parents = [] } };
}

static_executor-HasFunds : HasFunds static_executor.state
unfolding StackState.basic known_basic known_account known_account_in Map.get
static_executor-HasFunds a = elim (Bool-cases (bytes_eq alice a)) [
  | inl e ↦ rw e (omega arith)
  | inr e ↦ elim (Bool-cases (bytes_eq bob a)) [
    | inl f ↦ rw (e, f) (omega arith)
    | inr f ↦ rw (e, f) (omega arith)
  ]
]

-- PUSH1 7, PUSH1 0, SSTORE: code that would change a storage.
abbrev storing : List ℕ
storing = 0x60 ∷ 7 ∷ 0x60 ∷ 0 ∷ 0x55 ∷ []

abbrev writing : Runtime
writing = Runtime.new storing [] context istanbul

abbrev payment : Transfer
payment = record { source = alice; target = bob; value = 3 }

execute-SameView_example :
    IsFine ⊥ {A = ExitReason × Runtime × StackExecutor}
      (λ x. SameView static_executor.state x.2.state)
      (execute 10 static_executor writing)
execute-SameView_example =
    execute-SameView 10 static_executor touching-IsOrderly writing refl static_executor-HasFunds

-- An executor with the gas for transactions, where bob's code changes his storage.
abbrev rich_executor : StackExecutor
rich_executor = record free_executor {
  state = record free_executor.state {
    substate = record {
      top = record parent {
        metadata = record parent.metadata { gasometer = Gasometer.new 1000000 istanbul };
        accounts =
            (alice, account 10 false)
            ∷ (bob, record (account 5 false) { code = some storing })
            ∷ [];
      };
      parents = [];
    };
  };
}

call_inner-undone_example :
    IsFine
      (false ≡ false)
      {A = Called × StackExecutor}
      (λ x.
        Goes rich_executor x.1
        × ((is_succeed x.0.0 ≡ true) ⊎ IsRestored rich_executor.state x.1.state))
      (call_inner (execute 10) rich_executor bob (some payment) [] none false true true context)
call_inner-undone_example =
    call_inner-undone 10 rich_executor touching-IsOrderly bob (some payment) [] none false true true
      context (inl refl)

free_executor-HasFunds : HasFunds free_executor.state
unfolding StackState.basic known_basic known_account known_account_in Map.get
free_executor-HasFunds a = elim (Bool-cases (bytes_eq alice a)) [
  | inl e ↦ rw e (omega arith)
  | inr e ↦ elim (Bool-cases (bytes_eq bob a)) [
    | inl f ↦ rw (e, f) (omega arith)
    | inr f ↦ rw (e, f) (omega arith)
  ]
]

call_inner-SameView_example :
    IsFine ⊥ {A = Called × StackExecutor}
      (λ x. SameView free_executor.state x.1.state)
      (call_inner (execute 10) free_executor bob none [] none true true true context)
call_inner-SameView_example =
    call_inner-SameView 10 free_executor touching-IsOrderly bob none [] none true true true context
      refl tt free_executor-HasFunds

-- The call pays for itself, increases the nonce, transfers the value and runs bob's code; the creations run
-- the same code.
transact-fine_example :
    FineFrom (Unit {0}) rich_executor (transact_create 20 rich_executor alice 3 storing 500000)
    × FineFrom
        (Unit {0})
        rich_executor
        (transact_create2 20 rich_executor alice 3 storing zero_h256 500000)
    × FineFrom (Unit {0}) rich_executor (transact_call 20 rich_executor alice bob 3 storing 500000)
transact-fine_example =
    transact-fine 20 rich_executor touching-IsOrderly refl alice 3 storing 500000 zero_h256 bob
