-- ===== src/Runtime/Eval.antt =====
-- runtime/src/eval/mod.rs: the dispatch of the opcodes that a machine traps on.
pub mod From
use sputnikvm.Base.{ℕ, true, false, List, ◌∷◌, [], ok, err, ◌==◌, if◌then◌else◌}
use sputnikvm.Base.Result.{Result}
use sputnikvm.Base.Outcome.{Outcome, returned}
use sputnikvm.PrimitiveTypes.{U256Ops, H256}
use sputnikvm.Core.Error.{error}
use sputnikvm.Core.Opcode
use sputnikvm.Core.Opcode.{Opcode}
use sputnikvm.Core.Exec.{Exec}
use sputnikvm.Runtime.Context.{Context, call as by_call, call_code, delegate_call, static_call}
use sputnikvm.Runtime.Handler.{Handler}
use sputnikvm.Runtime.Trait.{HandlerTrait}
use sputnikvm.Runtime.Act.{Runtime, Control, exit, Act, on_machine}
use sputnikvm.Runtime.System as System
use sputnikvm.Runtime.Effects as Effects

module _ {H CreateInterrupt CallInterrupt : Type 0}
    (T : HandlerTrait H CreateInterrupt CallInterrupt) where
  -- An opcode that only reads: it sees the context, the returned data and the handler.
  pub reading :
      (Context → List ℕ → Handler → Exec (Unit {0}))
      → Act H CreateInterrupt CallInterrupt (Unit {0})
  reading f r h = on_machine (f r.context r.return_data_buffer (T.as_handler h)) r h

  pub handle_other : Opcode → Act H CreateInterrupt CallInterrupt (Unit {0})
  handle_other opcode r h =
      let (x, machine, h') = T.other h opcode r.machine in
      elim x [
        | ok _ ↦ returned (ok tt, record r { machine = machine }, h')
        | err e ↦ returned (err (exit (error e)), record r { machine = machine }, h')
      ]

  -- An arm of the match: the opcode, and what it does.
  abbrev pub Arms : Type 0
  Arms = List (Opcode × Act H CreateInterrupt CallInterrupt (Unit {0}))

  pub arm_in : Arms → Opcode → Act H CreateInterrupt CallInterrupt (Unit {0})
  unfolding handle_other
  arm_in [] opcode = handle_other opcode
  arm_in ((o, f) ∷ rest) opcode = let other = arm_in rest opcode in if o == opcode then f else other

module _ {H CreateInterrupt CallInterrupt : Type 0}
    (T : HandlerTrait H CreateInterrupt CallInterrupt) ⦃U : U256Ops⦄
    (keccak256 : List ℕ → H256) where
  abbrev pub arms : Arms T
  arms =
      (Opcode.sha3, reading T λ context return_data handler. System.sha3 keccak256)
      ∷ (Opcode.address, reading T λ context return_data handler. System.address context)
      ∷ (Opcode.balance, reading T λ context return_data handler. System.balance handler)
      ∷ (
        Opcode.selfbalance,
        reading T λ context return_data handler. System.selfbalance context handler,
      )
      ∷ (Opcode.origin, reading T λ context return_data handler. System.origin handler)
      ∷ (Opcode.caller, reading T λ context return_data handler. System.caller context)
      ∷ (Opcode.callvalue, reading T λ context return_data handler. System.callvalue context)
      ∷ (Opcode.gasprice, reading T λ context return_data handler. System.gasprice handler)
      ∷ (Opcode.extcodesize, reading T λ context return_data handler. System.extcodesize handler)
      ∷ (Opcode.extcodehash, reading T λ context return_data handler. System.extcodehash handler)
      ∷ (Opcode.extcodecopy, reading T λ context return_data handler. System.extcodecopy handler)
      ∷ (
        Opcode.returndatasize,
        reading T λ context return_data handler. System.returndatasize return_data,
      )
      ∷ (
        Opcode.returndatacopy,
        reading T λ context return_data handler. System.returndatacopy return_data,
      )
      ∷ (Opcode.blockhash, reading T λ context return_data handler. System.blockhash handler)
      ∷ (Opcode.coinbase, reading T λ context return_data handler. System.coinbase handler)
      ∷ (Opcode.timestamp, reading T λ context return_data handler. System.timestamp handler)
      ∷ (Opcode.number, reading T λ context return_data handler. System.number handler)
      ∷ (Opcode.difficulty, reading T λ context return_data handler. System.difficulty handler)
      ∷ (Opcode.gaslimit, reading T λ context return_data handler. System.gaslimit handler)
      ∷ (Opcode.sload, reading T λ context return_data handler. System.sload context handler)
      ∷ (Opcode.sstore, Effects.sstore T)
      ∷ (Opcode.gas, reading T λ context return_data handler. System.gas handler)
      ∷ (Opcode.log0, Effects.log T 0)
      ∷ (Opcode.log1, Effects.log T 1)
      ∷ (Opcode.log2, Effects.log T 2)
      ∷ (Opcode.log3, Effects.log T 3)
      ∷ (Opcode.log4, Effects.log T 4)
      ∷ (Opcode.suicide, Effects.suicide T)
      ∷ (Opcode.create, Effects.create T keccak256 false)
      ∷ (Opcode.create2, Effects.create T keccak256 true)
      ∷ (Opcode.call, Effects.call T by_call)
      ∷ (Opcode.callcode, Effects.call T call_code)
      ∷ (Opcode.delegatecall, Effects.call T delegate_call)
      ∷ (Opcode.staticcall, Effects.call T static_call)
      ∷ (Opcode.chainid, reading T λ context return_data handler. System.chainid handler)
      ∷ []

  pub eval : Opcode → Act H CreateInterrupt CallInterrupt (Unit {0})
  unfolding arm_in
  eval opcode = arm_in T arms opcode
