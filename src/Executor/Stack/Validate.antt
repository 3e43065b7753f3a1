-- ===== src/Executor/Stack/Validate.antt =====
-- src/executor/stack/mod.rs: what pre-validation lets through.
use sputnikvm.Base.{
  Bool, true, Option, ok, err, and_then, ◌≡◌, ◌≢◌, refl, arith, Option-cases, inl, inr,
}
use sputnikvm.Base.Result.{Result}
use sputnikvm.PrimitiveTypes.{U256Ops}
use sputnikvm.Core.Error.{ExitError}
use sputnikvm.Core.Opcode.{Opcode}
use sputnikvm.Core.Stack as Core
use sputnikvm.Runtime.Context.{Context}
use sputnikvm.Gasometer.Static.{static_opcode_cost}
use sputnikvm.Gasometer.Cost.{GasCost, MemoryCost, invalid}
use sputnikvm.Gasometer.Dynamic.{dynamic_memory_cost}
use sputnikvm.Gasometer.Dynamic.StaticMode.{
  ChangesState, static_opcode_cost-ChangesState, dynamic_opcode_cost-static,
}
use sputnikvm.Gasometer.Meter.Dynamic.{record_dynamic_cost-invalid}
use sputnikvm.Executor.StackState.{set_metadata}
use sputnikvm.Executor.Stack.{
  Crates, StackExecutor, Answered, gasometer, set_gasometer, recorded, record_dynamic, as_handler,
  pre_validate,
}

-- Whether the current substate is static.
abbrev pub static_now : StackExecutor → Bool
static_now e = e.state.substate.top.metadata.is_static

module _ ⦃U : U256Ops⦄ ⦃crates : Crates⦄ where
  record_invalid :
      (e : StackExecutor) (memory : Result ExitError (Option MemoryCost))
      → (record_dynamic e (and_then memory λ m. ok (invalid, m))).0 ≢ ok tt
  unfolding record_dynamic recorded
  record_invalid e (ok m) = record_dynamic_cost-invalid (gasometer e) m
  record_invalid e (err x) = ground arith

  -- In a static substate, pre-validation lets no opcode through that changes the state: not SSTORE, LOG0 to
  -- LOG4, CREATE, CREATE2 or SUICIDE, and not CALL with a value that is not zero.
  pub pre_validate-static :
      (e : StackExecutor) (context : Context) (opcode : Opcode) (stack : Core.Stack)
      → static_now e ≡ true
      → ChangesState stack opcode
      → (pre_validate e context opcode stack).0 ≢ ok tt
  unfolding pre_validate
  pre_validate-static e context opcode stack s c =
      rw
        (
          static_opcode_cost-ChangesState c,
          pre_validate,
          dynamic_opcode_cost-static context.address stack e.config (as_handler e) (static_now e) s
              c,
        )
        (record_invalid e (dynamic_memory_cost opcode stack))

  -- What a change that only concerns the gasometer is.
  abbrev OnlyGas : StackExecutor → Answered → Type 0
  OnlyGas e r = r.1 ≡ set_gasometer e (gasometer r.1)

  record_dynamic_rest :
      (e : StackExecutor) (cost : Result ExitError (GasCost × Option MemoryCost))
      → OnlyGas e (record_dynamic e cost)
  unfolding record_dynamic recorded set_gasometer gasometer set_metadata
  record_dynamic_rest e (ok cost) = refl
  record_dynamic_rest e (err x) = refl

  -- Pre-validation changes nothing but the gasometer of the current substate.
  pub pre_validate_rest :
      (e : StackExecutor) (context : Context) (opcode : Opcode) (stack : Core.Stack)
      → (pre_validate e context opcode stack).1
        ≡ set_gasometer e (gasometer (pre_validate e context opcode stack).1)
  unfolding pre_validate recorded set_gasometer gasometer set_metadata
  pre_validate_rest e context opcode stack = elim (Option-cases (static_opcode_cost opcode)) [
    | inl n ↦ rw (n, pre_validate) (record_dynamic_rest e _)
    | inr (cost, n) ↦ rw (n, pre_validate) refl
  ]
