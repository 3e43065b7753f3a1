-- ===== src/Runtime/Step.antt =====
-- runtime/src/lib.rs and runtime/src/interrupt.rs: stepping a runtime, and running it.
pub mod From
use sputnikvm.Base.{ℕ, zero, suc, List, Option, none, some, ok, err}
use sputnikvm.Base.Result.{Result}
use sputnikvm.Base.Outcome.{Outcome, returned, out_of_fuel, bind_outcome}
use sputnikvm.PrimitiveTypes.{U256Ops, H256}
use sputnikvm.Core.Error as Error
use sputnikvm.Core.Error.{Capture, ExitError, ExitReason, fatal, error, unhandled_interrupt}
use sputnikvm.Core.Opcode.{Opcode}
use sputnikvm.Core.Stack.{Stack}
use sputnikvm.Core.Machine as Machine
use sputnikvm.Core.Step as Core
use sputnikvm.Runtime.Trait.{HandlerTrait}
use sputnikvm.Runtime.Act.{Runtime, Control, continue, call_interrupt, create_interrupt, exit}
use sputnikvm.Runtime.Eval.{eval}

-- An interrupt whose resolution is the runtime itself.
pub data Resolve (CreateInterrupt CallInterrupt : Type 0) : Type 0 where
  create : CreateInterrupt → Resolve CreateInterrupt CallInterrupt
  call : CallInterrupt → Resolve CreateInterrupt CallInterrupt

-- `self.machine.exit(e)` and `self.status = Err(e)`
pub exit_with : Runtime → ExitReason → Runtime
exit_with r e = record r { machine = Machine.exit r.machine e; status = err e }

-- What dropping a resolution does to its runtime.
pub drop_resolve : Runtime → Runtime
unfolding exit_with
drop_resolve r = exit_with r (fatal unhandled_interrupt)

-- The result of the pre-validation.
validated : {H : Type 0} → Result ExitError (Unit {0}) × H → Runtime → Runtime × H
unfolding exit_with
validated (ok u, h) r = (r, h)
validated (err e, h) r = (exit_with r (error e), h)

-- What a step and a run return, and the runtime and the handler after them.
abbrev pub Stepped : Type 0 → Type 0 → Type 0 → Type 0
Stepped H CreateInterrupt CallInterrupt =
    Result (Capture ExitReason (Resolve CreateInterrupt CallInterrupt)) (Unit {0}) × Runtime × H

abbrev pub Ran : Type 0 → Type 0 → Type 0 → Type 0
Ran H CreateInterrupt CallInterrupt =
    Capture ExitReason (Resolve CreateInterrupt CallInterrupt) × Runtime × H

module _ {H CreateInterrupt CallInterrupt : Type 0} where
  -- The end of a step, by the control that the evaluation returns.
  pub controlled :
      Result (Control CreateInterrupt CallInterrupt) (Unit {0}) × Runtime × H
      → Stepped H CreateInterrupt CallInterrupt
  unfolding exit_with
  controlled (ok u, r, h) = (ok tt, r, h)
  controlled (err continue, r, h) = (ok tt, r, h)
  controlled (err (call_interrupt i), r, h) = (err (Error.trap (call i)), r, h)
  controlled (err (create_interrupt i), r, h) = (err (Error.trap (create i)), r, h)
  controlled (err (exit e), r, h) = (err (Error.exit e), exit_with r e, h)

  -- From the result of a step: the loop ends where it returns.
  unfoldable pub next :
      (Runtime → H → Outcome (Ran H CreateInterrupt CallInterrupt))
      → Stepped H CreateInterrupt CallInterrupt
      → Outcome (Ran H CreateInterrupt CallInterrupt)
  next run (ok u, r, h) = run r h
  next run (err c, r, h) = returned (c, r, h)

module _ {H CreateInterrupt CallInterrupt : Type 0}
    (T : HandlerTrait H CreateInterrupt CallInterrupt) where
  -- The pre-validation of the next opcode, if there is one.
  pub validate : Runtime → H → Runtime × H
  unfolding validated
  validate r h = elim (Machine.inspect r.machine) [
    | none ↦ (r, h)
    | some (opcode, stack) ↦ validated (T.pre_validate h r.context opcode stack) r
  ]

module _ {H CreateInterrupt CallInterrupt : Type 0}
    (T : HandlerTrait H CreateInterrupt CallInterrupt) ⦃U : U256Ops⦄
    (keccak256 : List ℕ → H256) where
  -- From what the machine returns.
  after_machine :
      Result Core.Captured (Unit {0})
      → Runtime
      → H
      → Outcome (Stepped H CreateInterrupt CallInterrupt)
  unfolding controlled
  after_machine (ok u) r h = returned (ok tt, r, h)
  after_machine (err (Error.exit e)) r h =
      returned (err (Error.exit e), record r { status = err e }, h)
  after_machine (err (Error.trap opcode)) r h =
      bind_outcome (eval T keccak256 opcode r h) λ x. returned (controlled x)

  -- From the look at the status.
  after_validate : Runtime × H → Outcome (Stepped H CreateInterrupt CallInterrupt)
  unfolding after_machine
  after_validate (r, h) = elim r.status [
    | err e ↦ returned (err (Error.exit e), r, h)
    | ok _ ↦
        let (x, machine) = Core.step r.machine in after_machine x (record r { machine = machine }) h
  ]

  pub step : Runtime → H → Outcome (Stepped H CreateInterrupt CallInterrupt)
  unfolding validate after_validate
  step r h = after_validate (validate T r h)

  -- The loop, with the number of its steps as fuel.
  pub run : ℕ → Runtime → H → Outcome (Ran H CreateInterrupt CallInterrupt)
  unfolding step next
  run zero r h = out_of_fuel
  run (suc fuel) r h = bind_outcome (step r h) (next (run fuel))
