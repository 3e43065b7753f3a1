-- ===== src/Executor/Stack/Transact.antt =====
-- src/executor/stack/mod.rs: running a runtime, the executor as the handler of what it runs, and the
-- transactions.
pub mod Goes
pub mod Seen
use sputnikvm.Base.{ℕ, zero, suc, true, false, List, [], Option, some, ok, err}
use sputnikvm.Base.Outcome.{Outcome, returned, out_of_fuel, bind_outcome}
use sputnikvm.PrimitiveTypes.{U256Ops, H160, H256}
use sputnikvm.Core.Error as Error
use sputnikvm.Core.Error.{Capture, ExitReason, error}
use sputnikvm.Runtime.Context.{CreateScheme, legacy, create2, Context, Transfer}
use sputnikvm.Runtime.Trait.{HandlerTrait, Created, Called, default_other}
use sputnikvm.Runtime.Act.{Runtime}
use sputnikvm.Runtime.Step as Runtime
use sputnikvm.Gasometer.Cost.{TransactionCost, call_transaction_cost, create_transaction_cost}
use sputnikvm.Gasometer.Meter as Gasometer
use sputnikvm.Executor.StackState as StackState
use sputnikvm.Executor.Stack.{
  Crates, StackExecutor, Answered, gasometer, set_storage, log, mark_delete, as_handler, recorded,
  pre_validate,
}
use sputnikvm.Executor.Stack.Inner.{Execute, inc_nonce}
use sputnikvm.Executor.Stack.Create.{create_inner}
use sputnikvm.Executor.Stack.Call.{call_inner}

-- The interrupts are `Infallible`.
abbrev pub StackHandler : Type 0
StackHandler = HandlerTrait StackExecutor ⊥ ⊥

-- From the end of a run, which is no trap.
abbrev pub reason_of : Runtime.Ran StackExecutor ⊥ ⊥ → ExitReason × Runtime × StackExecutor
reason_of (Error.exit reason, runtime, e) = (reason, runtime, e)
reason_of (Error.trap (Runtime.create i), runtime, e) = elim i [ ]
reason_of (Error.trap (Runtime.call i), runtime, e) = elim i [ ]

abbrev pub exits :
    {A : Type 0} → Outcome (A × StackExecutor) → Outcome (Capture A ⊥ × StackExecutor)
exits o = bind_outcome o λ x. returned (Error.exit x.0, x.1)

module _ ⦃U : U256Ops⦄ ⦃crates : Crates⦄ where
  -- `impl Handler for StackExecutor`, whose creations and calls run code by `execute`.
  unfoldable pub stack_handler : Execute → StackHandler
  stack_handler execute = record {
    as_handler = as_handler;
    set_storage = set_storage;
    log = log;
    mark_delete = mark_delete;
    create = λ e caller scheme value init_code target_gas.
        exits (create_inner execute e caller scheme value init_code target_gas true);
    call = λ e code_address transfer input target_gas is_static context.
        exits
          (call_inner execute e code_address transfer input target_gas is_static true true context);
    pre_validate = pre_validate;
    other = default_other;
  }

  -- The fuel is the number of steps, and the number of executions inside each other.
  pub execute : ℕ → Execute
  unfolding stack_handler
  execute zero e runtime = out_of_fuel
  execute (suc fuel) e runtime =
      bind_outcome
        (Runtime.run (stack_handler (execute fuel)) crates.keccak256 (suc fuel) runtime e)
        λ x. returned (reason_of x)

  -- The record of the cost of a transaction, and what follows it.
  after_transaction :
      {A : Type 0}
      → Answered
      → (ExitReason → A)
      → (StackExecutor → Outcome (A × StackExecutor))
      → Outcome (A × StackExecutor)
  after_transaction (ok u, e) fails f = f e
  after_transaction (err x, e) fails f = returned (fails (error x), e)

  -- The record of the cost of a transaction.
  charge : StackExecutor → TransactionCost → Answered
  unfolding recorded
  charge e cost = recorded e (Gasometer.record_transaction (gasometer e) cost)

  reason_only : Created × StackExecutor → Outcome (ExitReason × StackExecutor)
  reason_only x = returned (x.0.0, x.1)

  charged_create :
      ℕ
      → H160
      → CreateScheme
      → ℕ
      → List ℕ
      → ℕ
      → StackExecutor
      → Outcome (ExitReason × StackExecutor)
  unfolding execute reason_only
  charged_create fuel caller scheme value init_code gas_limit e =
      bind_outcome
        (create_inner (execute fuel) e caller scheme value init_code (some gas_limit) false)
        reason_only

  create_transaction :
      ℕ
      → StackExecutor
      → H160
      → CreateScheme
      → ℕ
      → List ℕ
      → ℕ
      → Outcome (ExitReason × StackExecutor)
  unfolding after_transaction charge charged_create
  create_transaction fuel e caller scheme value init_code gas_limit =
      after_transaction (charge e (create_transaction_cost init_code)) (λ reason. reason)
        (charged_create fuel caller scheme value init_code gas_limit)

  pub transact_create :
      ℕ → StackExecutor → H160 → ℕ → List ℕ → ℕ → Outcome (ExitReason × StackExecutor)
  unfolding create_transaction
  transact_create fuel e caller value init_code gas_limit =
      create_transaction fuel e caller (legacy caller) value init_code gas_limit

  -- The arguments end with the salt and the gas limit.
  pub transact_create2 :
      ℕ → StackExecutor → H160 → ℕ → List ℕ → H256 → ℕ → Outcome (ExitReason × StackExecutor)
  unfolding create_transaction
  transact_create2 fuel e caller value init_code salt gas_limit =
      create_transaction fuel e caller (create2 caller (crates.keccak256 init_code) salt) value
        init_code gas_limit

  charged_call : ℕ → H160 → H160 → ℕ → List ℕ → ℕ → StackExecutor → Outcome (Called × StackExecutor)
  unfolding execute inc_nonce
  charged_call fuel caller address value input gas_limit e = bind_outcome (inc_nonce e caller) λ f.
      call_inner (execute fuel) f address
        (some record { source = caller; target = address; value = value }) input (some gas_limit)
        false false false record { caller = caller; address = address; apparent_value = value }

  pub transact_call :
      ℕ → StackExecutor → H160 → H160 → ℕ → List ℕ → ℕ → Outcome (Called × StackExecutor)
  unfolding after_transaction charge charged_call
  transact_call fuel e caller address value input gas_limit =
      after_transaction (charge e (call_transaction_cost input)) (λ reason. (reason, []))
        (charged_call fuel caller address value input gas_limit)
