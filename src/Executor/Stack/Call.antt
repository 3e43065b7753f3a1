-- ===== src/Executor/Stack/Call.antt =====
-- src/executor/stack/mod.rs: calls. They run code by `execute`, which is a parameter here; the
-- interrupts of this executor are `Infallible`, so that a call always ends in `Capture::Exit`, whose
-- content is returned.
pub mod Goes
use sputnikvm.Base.{
  ℕ, Bool, true, false, ◌+◌, ◌-◌, ◌/◌, ◌&&◌, not, min, List, [], ◌∷◌, Option, none, some, ok, err,
  ltb, ◌==◌, unwrap_or, if◌then◌else◌, length,
}
use sputnikvm.Base.Result.{Result}
use sputnikvm.Base.Outcome.{Outcome, returned, panicked, bind_outcome}
use sputnikvm.PrimitiveTypes.{U256Ops, H160, u64_mod}
use sputnikvm.Core.Error.{
  ExitError, ExitReason, ExitFatal, succeed, error, revert, fatal, call_too_deep, out_of_fund,
  create_collision, create_contract_limit,
}
use sputnikvm.Core.Machine as Machine
use sputnikvm.Runtime.Context.{CreateScheme, Context, Transfer}
use sputnikvm.Runtime.Trait.{Created, Called}
use sputnikvm.Runtime.Act as Runtime
use sputnikvm.Runtime.Act.{Runtime}
use sputnikvm.Gasometer.Meter as Gasometer
use sputnikvm.Backend.{Log}
use sputnikvm.Executor.StackState as StackState
use sputnikvm.Executor.StackState.{MemoryStackState}
use sputnikvm.Executor.Stack.{
  Crates, StackExecutor, StackExitKind, succeeded, reverted, failed, Answered, PrecompileOutput,
  enter_substate, exit_substate, gasometer, set_gasometer, gas, nonce, balance, code_size, log,
  create_address, recorded,
}
use sputnikvm.Executor.Stack.Inner.{Execute, on_state, fail, leave, too_deep, reserve}

abbrev pub call_fails : ExitError → Called
call_fails x = (error x, [])

-- The gas limit of a call that takes the stipend: with the stipend, if it transfers a value.
with_stipend : StackExecutor → Option Transfer → Bool → ℕ → ℕ
with_stipend e none take_stipend gas_limit = gas_limit
with_stipend e (some transfer) take_stipend gas_limit =
    if take_stipend && not (transfer.value == 0)
    then min (gas_limit + e.config.call_stipend) (u64_mod - 1)
    else gas_limit

-- The loop that records the logs of a precompiled contract.
pub log_all : StackExecutor → List Log → Answered
log_all e [] = (ok tt, e)
log_all e (l ∷ logs) =
    let (r, e') = log e l.address l.topics l.bytes in
    let rest = log_all e' logs in elim r [ ok _ ↦ rest | err x ↦ (err x, e') ]

-- From the logs of a precompiled contract. Whether its cost can be recorded is not looked at.
precompiled : PrecompileOutput → Answered → Outcome (Called × StackExecutor)
precompiled out (err x, e) = returned ((error x, out.output), e)
precompiled out (ok u, e) =
    leave (set_gasometer e (Gasometer.record_cost (gasometer e) out.cost).1) succeeded
      (succeed out.exit_status, out.output)

module _ ⦃U : U256Ops⦄ where
  -- From the reason of the execution.
  pub end_call : ExitReason → Runtime → StackExecutor → Outcome (Called × StackExecutor)
  end_call (succeed s) runtime e =
      leave e succeeded (succeed s, Machine.return_value runtime.machine)
  end_call (error x) runtime e = leave e failed (call_fails x)
  end_call (revert r) runtime e = leave e reverted (revert r, Machine.return_value runtime.machine)
  end_call (fatal f) runtime e = leave (fail e) failed (fatal f, [])

  transferred : Option Transfer → MemoryStackState → StackState.Changed
  transferred none s = (ok tt, s)
  transferred (some transfer) s = StackState.transfer s transfer

  module _ (execute : Execute) where
    -- From the answer of the precompiled contracts, which is none where there is no such contract.
    after_precompile :
        List ℕ
        → List ℕ
        → Context
        → StackExecutor
        → Option (Result ExitError PrecompileOutput) × MemoryStackState
        → Outcome (Called × StackExecutor)
    unfolding log_all precompiled end_call
    after_precompile code input context e (some (ok out), s) =
        precompiled out (log_all record e { state = s } out.logs)
    after_precompile code input context e (some (err x), s) =
        leave record e { state = s } failed (call_fails x)
    after_precompile code input context e (none, s) =
        bind_outcome (execute record e { state = s } (Runtime.new code input context e.config))
          λ x. end_call x.0 x.1 x.2

    -- From the transfer of the value, with the gas limit.
    run_call :
        H160
        → List ℕ
        → List ℕ
        → ℕ
        → Bool
        → Context
        → StackExecutor
        → StackState.Changed
        → Outcome (Called × StackExecutor)
    unfolding after_precompile
    run_call code_address code input gas_limit is_static context e (err x, s) =
        leave record e { state = s } reverted (call_fails x)
    run_call code_address code input gas_limit is_static context e (ok u, s) =
        after_precompile code input context e
          (e.precompile code_address input (some gas_limit) context s is_static)

    -- In the substate of the call.
    enter_call :
        H160
        → List ℕ
        → Option Transfer
        → List ℕ
        → ℕ
        → Bool
        → Context
        → StackExecutor
        → Outcome (Called × StackExecutor)
    unfolding run_call transferred
    enter_call code_address code transfer input gas_limit is_static context e =
        if too_deep e
        then leave e reverted (call_fails call_too_deep)
        else run_call code_address code input gas_limit is_static context e
            (transferred transfer e.state)

    -- From the gas limit, which the stipend is added to.
    start_call :
        H160
        → Option Transfer
        → List ℕ
        → Bool
        → Bool
        → Context
        → Result ExitError ℕ × StackExecutor
        → Outcome (Called × StackExecutor)
    unfolding with_stipend enter_call
    start_call code_address transfer input is_static take_stipend context (err x, e) =
        returned (call_fails x, e)
    start_call code_address transfer input is_static take_stipend context (ok gas_limit, e) =
        let limit = with_stipend e transfer take_stipend gas_limit in
        enter_call code_address (StackState.code e.state code_address) transfer input limit
          is_static context
          (on_state (enter_substate e limit is_static) λ s. StackState.touch s context.address)

    pub call_inner :
        StackExecutor
        → H160
        → Option Transfer
        → List ℕ
        → Option ℕ
        → Bool
        → Bool
        → Bool
        → Context
        → Outcome (Called × StackExecutor)
    unfolding start_call
    call_inner e code_address transfer input target_gas is_static take_l64 take_stipend context =
        start_call code_address transfer input is_static take_stipend context
          (reserve e target_gas take_l64)
