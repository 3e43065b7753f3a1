-- ===== src/Executor/Stack/Create.antt =====
-- src/executor/stack/mod.rs: creations. They run code by `execute`, which is a parameter here; the
-- interrupts of this executor are `Infallible`, so that a creation always ends in `Capture::Exit`, whose
-- content is returned.
pub mod Goes
use sputnikvm.Base.{
  ℕ, Bool, true, false, ◌-◌, ◌/◌, ◌&&◌, not, min, List, [], ◌∷◌, Option, none, some, ok, err, ltb,
  ◌==◌, unwrap_or, if◌then◌else◌, length,
}
use sputnikvm.Base.Result.{Result}
use sputnikvm.Base.Outcome.{Outcome, returned, panicked, bind_outcome}
use sputnikvm.PrimitiveTypes.{U256Ops, H160, u64_mod}
use sputnikvm.Core.Error.{
  ExitError, ExitReason, ExitFatal, succeed, error, revert, fatal, call_too_deep, out_of_fund,
  create_collision, create_contract_limit,
}
use sputnikvm.Core.Machine as Machine
use sputnikvm.Runtime.Context.{CreateScheme, Context, Transfer}
use sputnikvm.Runtime.Trait.{Created, Called}
use sputnikvm.Runtime.Act as Runtime
use sputnikvm.Runtime.Act.{Runtime}
use sputnikvm.Gasometer.Meter as Gasometer
use sputnikvm.Backend.{Log}
use sputnikvm.Executor.StackState as StackState
use sputnikvm.Executor.StackState.{MemoryStackState}
use sputnikvm.Executor.Stack.{
  Crates, StackExecutor, StackExitKind, succeeded, reverted, failed, Answered, PrecompileOutput,
  enter_substate, exit_substate, gasometer, set_gasometer, gas, nonce, balance, code_size, log,
  create_address, recorded,
}
use sputnikvm.Executor.Stack.Inner.{Execute, on_state, inc_nonce, fail, leave, too_deep, reserve}

-- The creation that fails.
abbrev pub create_fails : ExitError → Created
create_fails x = (error x, none, [])

-- Whether a code is longer than the limit, if there is one.
over_limit : Option ℕ → ℕ → Bool
over_limit none len = false
over_limit (some limit) len = ltb limit len

-- From the exit of the substate of a creation that has paid for its code.
store_code : H160 → List ℕ → Created → Option Answered → Outcome (Created × StackExecutor)
store_code address out created none = panicked
store_code address out created (some (ok u, e)) =
    returned (created, on_state e λ s. StackState.set_code s address out)
store_code address out created (some (err x, e)) =
    returned (create_fails x, on_state e λ s. StackState.set_code s address out)

-- From the record of the deposit for the code.
deposited :
    H160 → List ℕ → Created → StackExecutor → Gasometer.Recorded → Outcome (Created × StackExecutor)
unfolding store_code
deposited address out created e (ok u, g) =
    store_code address out created (exit_substate (set_gasometer e g) succeeded)
deposited address out created e (err x, g) = leave (set_gasometer e g) failed (create_fails x)

module _ ⦃U : U256Ops⦄ where
  -- From the reason of the execution.
  pub end_create : H160 → ExitReason → Runtime → StackExecutor → Outcome (Created × StackExecutor)
  unfolding over_limit deposited
  end_create address (succeed s) runtime e =
      let out = Machine.return_value runtime.machine in
      if over_limit e.config.create_contract_limit (length out)
      then leave (fail e) failed (create_fails create_contract_limit)
      else deposited address out (succeed s, some address, []) e
          (Gasometer.record_deposit (gasometer e) (length out))
  end_create address (error x) runtime e = leave (fail e) failed (create_fails x)
  end_create address (revert r) runtime e =
      leave e reverted (revert r, none, Machine.return_value runtime.machine)
  end_create address (fatal f) runtime e = leave (fail e) failed (fatal f, none, [])

  module _ (execute : Execute) where
    -- From the transfer of the value.
    run_create :
        H160
        → H160
        → ℕ
        → List ℕ
        → StackExecutor
        → StackState.Changed
        → Outcome (Created × StackExecutor)
    unfolding end_create inc_nonce
    run_create caller address value init_code e (err x, s) =
        leave (record e { state = s }) reverted (create_fails x)
    run_create caller address value init_code e (ok u, s) =
        let f = record e { state = s } in
        bind_outcome (if e.config.create_increase_nonce then inc_nonce f address else returned f)
          λ f'.
            bind_outcome
              (execute f' (
                Runtime.new init_code []
                  record { address = address; caller = caller; apparent_value = value } f'.config))
              λ x. end_create address x.0 x.1 x.2

    -- In the substate of the creation.
    enter_create : H160 → H160 → ℕ → List ℕ → StackExecutor → Outcome (Created × StackExecutor)
    unfolding run_create
    enter_create caller address value init_code e =
        if not (code_size e address == 0)
        then leave e failed (create_fails create_collision)
        else if ltb 0 (nonce e address)
        then leave e failed (create_fails create_collision)
        else run_create caller address value init_code e (
            StackState.transfer (StackState.reset_storage e.state address)
              record { source = caller; target = address; value = value })

    -- From the gas limit.
    start_create :
        H160
        → H160
        → ℕ
        → List ℕ
        → Result ExitError ℕ × StackExecutor
        → Outcome (Created × StackExecutor)
    unfolding enter_create inc_nonce
    start_create caller address value init_code (err x, e) = returned (create_fails x, e)
    start_create caller address value init_code (ok gas_limit, e) =
        bind_outcome (inc_nonce e caller)
          λ f. enter_create caller address value init_code (enter_substate f gas_limit false)

  module _ ⦃crates : Crates⦄ (execute : Execute) where
    pub create_inner :
        StackExecutor
        → H160
        → CreateScheme
        → ℕ
        → List ℕ
        → Option ℕ
        → Bool
        → Outcome (Created × StackExecutor)
    unfolding start_create
    create_inner e caller scheme value init_code target_gas take_l64 =
        if too_deep e
        then returned (create_fails call_too_deep, e)
        else if ltb (balance e caller) value
        then returned (create_fails out_of_fund, e)
        else start_create execute caller (create_address e scheme) value init_code
            (reserve e target_gas take_l64)
