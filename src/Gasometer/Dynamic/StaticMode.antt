-- ===== src/Gasometer/Dynamic/StaticMode.antt =====
-- gasometer/src/lib.rs: what an opcode that changes the state costs in a static machine.
use sputnikvm.Base.{◌<◌, Bool, true, none, ok, and_then, ◌≡◌, refl, arith}
use sputnikvm.PrimitiveTypes.{U256Ops, H160, H256}
use sputnikvm.Core.Opcode
use sputnikvm.Core.Opcode.{Opcode}
use sputnikvm.Core.Stack.{Stack, peek}
use sputnikvm.Runtime.Config.{Config}
use sputnikvm.Runtime.Handler.{Handler}
use sputnikvm.Gasometer.Cost.{invalid}
use sputnikvm.Gasometer.Static.{static_opcode_cost}
use sputnikvm.Gasometer.Dynamic.{
  call_of, gas_arms, dynamic_gas_cost, dynamic_memory_cost, dynamic_opcode_cost,
}

module _ ⦃U : U256Ops⦄ where
  -- The opcodes that change the state, which `CALL` does if it transfers a value.
  pub data ChangesState (stack : Stack) : Opcode → Type 0 where
    sstore : ChangesState stack Opcode.sstore
    log0 : ChangesState stack Opcode.log0
    log1 : ChangesState stack Opcode.log1
    log2 : ChangesState stack Opcode.log2
    log3 : ChangesState stack Opcode.log3
    log4 : ChangesState stack Opcode.log4
    create : ChangesState stack Opcode.create
    create2 : ChangesState stack Opcode.create2
    suicide : ChangesState stack Opcode.suicide
    call :
        (v : H256) → peek stack 2 ≡ ok v → 0 < U.from_big_endian v → ChangesState stack Opcode.call

  -- No such opcode has a static cost.
  pub static_opcode_cost-ChangesState :
      {stack : Stack} {opcode : Opcode}
      → ChangesState stack opcode
      → static_opcode_cost opcode ≡ none
  unfolding static_opcode_cost
  static_opcode_cost-ChangesState sstore = refl
  static_opcode_cost-ChangesState log0 = refl
  static_opcode_cost-ChangesState log1 = refl
  static_opcode_cost-ChangesState log2 = refl
  static_opcode_cost-ChangesState log3 = refl
  static_opcode_cost-ChangesState log4 = refl
  static_opcode_cost-ChangesState create = refl
  static_opcode_cost-ChangesState create2 = refl
  static_opcode_cost-ChangesState suicide = refl
  static_opcode_cost-ChangesState (call v e h) = refl

  module _ (address : H160) (stack : Stack) (config : Config) (handler : Handler) where
    call_of-static :
        (v : H256)
        → peek stack 2 ≡ ok v
        → 0 < U.from_big_endian v
        → call_of handler stack true ≡ ok invalid
    unfolding call_of
    call_of-static v e h = rw e (ground arith)

    -- In a static machine, an opcode that changes the state has the cost of an invalid one.
    pub dynamic_gas_cost-static :
        {opcode : Opcode}
        → ChangesState stack opcode
        → dynamic_gas_cost address opcode stack true config handler ≡ ok invalid
    unfolding gas_arms dynamic_gas_cost
    dynamic_gas_cost-static sstore = refl
    dynamic_gas_cost-static log0 = refl
    dynamic_gas_cost-static log1 = refl
    dynamic_gas_cost-static log2 = refl
    dynamic_gas_cost-static log3 = refl
    dynamic_gas_cost-static log4 = refl
    dynamic_gas_cost-static create = refl
    dynamic_gas_cost-static create2 = refl
    dynamic_gas_cost-static suicide = refl
    dynamic_gas_cost-static (call v e h) = call_of-static v e h

    pub dynamic_opcode_cost-static :
        {opcode : Opcode} (is_static : Bool)
        → is_static ≡ true
        → ChangesState stack opcode
        → dynamic_opcode_cost address opcode stack is_static config handler
          ≡ and_then (dynamic_memory_cost opcode stack) (λ m. ok (invalid, m))
    unfolding dynamic_opcode_cost
    dynamic_opcode_cost-static is_static s c = rw (s, dynamic_gas_cost-static c) refl
