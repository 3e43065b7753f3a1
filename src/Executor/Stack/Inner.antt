-- ===== src/Executor/Stack/Inner.antt =====
-- src/executor/stack/mod.rs: what creations and calls share.
pub mod Goes
pub mod Undone
use sputnikvm.Base.{
  ℕ, Bool, true, false, ◌-◌, ◌/◌, ◌&&◌, not, min, List, [], ◌∷◌, Option, none, some, ok, err, ltb,
  ◌==◌, unwrap_or, if◌then◌else◌, length,
}
use sputnikvm.Base.Result.{Result}
use sputnikvm.Base.Outcome.{Outcome, returned, panicked, overflowed, bind_outcome}
use sputnikvm.PrimitiveTypes.{U256Ops, H160, u64_mod}
use sputnikvm.Core.Error.{
  ExitError, ExitReason, ExitFatal, succeed, error, revert, fatal, call_too_deep, out_of_fund,
  create_collision, create_contract_limit,
}
use sputnikvm.Core.Machine as Machine
use sputnikvm.Runtime.Context.{CreateScheme, Context, Transfer}
use sputnikvm.Runtime.Trait.{Created, Called}
use sputnikvm.Runtime.Act as Runtime
use sputnikvm.Runtime.Act.{Runtime}
use sputnikvm.Gasometer.Meter as Gasometer
use sputnikvm.Backend.{Log}
use sputnikvm.Executor.StackState as StackState
use sputnikvm.Executor.StackState.{MemoryStackState}
use sputnikvm.Executor.Stack.{
  Crates, StackExecutor, StackExitKind, succeeded, reverted, failed, Answered, PrecompileOutput,
  enter_substate, exit_substate, gasometer, set_gasometer, gas, nonce, balance, code_size, log,
  create_address, recorded,
}

-- What runs the code of a runtime: its reason, and the runtime and the executor after it.
abbrev pub Execute : Type 0
Execute = StackExecutor → Runtime → Outcome (ExitReason × Runtime × StackExecutor)

abbrev pub l64 : ℕ → ℕ
l64 gas = gas - gas / 64

abbrev pub on_state : StackExecutor → (MemoryStackState → MemoryStackState) → StackExecutor
on_state e f = record e { state = f e.state }

-- `self.state.metadata_mut().gasometer.fail()`
pub fail : StackExecutor → StackExecutor
fail e = set_gasometer e (Gasometer.fail (gasometer e)).1

module _ ⦃U : U256Ops⦄ where
  -- `self.state.inc_nonce(address)`, which panics where the nonce overflows.
  unfoldable pub inc_nonce : StackExecutor → H160 → Outcome StackExecutor
  inc_nonce e address = elim (StackState.inc_nonce e.state address) [
    | none ↦ overflowed
    | some s ↦ returned (record e { state = s })
  ]

-- `let _ = self.exit_substate(kind)`, and what is returned after it. To exit the root panics.
pub leave : {A : Type 0} → StackExecutor → StackExitKind → A → Outcome (A × StackExecutor)
leave e kind a = elim (exit_substate e kind) [
  | none ↦ panicked
  | some answered ↦ returned (a, answered.1)
]

-- Whether the depth of the current substate is past the limit.
pub too_deep : StackExecutor → Bool
too_deep e = elim e.state.substate.top.metadata.depth [
  | none ↦ false
  | some depth ↦ ltb e.config.call_stack_limit depth
]

-- `try_or_fail!` on what the gasometer records, and a number after it.
on_recorded :
    StackExecutor → Gasometer.Recorded → (StackExecutor → ℕ) → Result ExitError ℕ × StackExecutor
on_recorded e (ok u, g) f = let e' = set_gasometer e g in (ok (f e'), e')
on_recorded e (err x, g) f = (err x, set_gasometer e g)

-- The gas that a creation or a call may have: the gas that is left, or all but a 64th of it.
after_gas : StackExecutor → Bool → Result ExitError ℕ × StackExecutor
unfolding on_recorded
after_gas e take_l64 =
    if not (take_l64 && e.config.call_l64_after_gas)
    then (ok (gas e), e)
    else if e.config.estimate
    then on_recorded e (Gasometer.record_cost (gasometer e) (gas e - l64 (gas e))) gas
    else (ok (l64 (gas e)), e)

-- From the gas that it may have: the gas limit, which is recorded as a cost.
reserve_from : Option ℕ → Result ExitError ℕ × StackExecutor → Result ExitError ℕ × StackExecutor
unfolding on_recorded
reserve_from target_gas (err x, e) = (err x, e)
reserve_from target_gas (ok available, e) =
    let gas_limit = min available (unwrap_or target_gas available) in
    on_recorded e (Gasometer.record_cost (gasometer e) gas_limit) (λ _. gas_limit)

pub reserve : StackExecutor → Option ℕ → Bool → Result ExitError ℕ × StackExecutor
unfolding after_gas reserve_from
reserve e target_gas take_l64 = reserve_from target_gas (after_gas e take_l64)
