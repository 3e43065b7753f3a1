-- ===== src/Runtime/Act.antt =====
-- runtime/src/lib.rs and runtime/src/eval/macros.rs: the state of a runtime, and what the functions of the
-- system opcodes are made of. Such a function changes the runtime and the handler, and returns early
-- where a macro fails, so that it is an action with a state and an early return.
pub mod From
pub mod FromAt
use sputnikvm.Base.{ℕ, List, [], ok, err}
use sputnikvm.Base.Result.{Result}
use sputnikvm.Base.Outcome.{Outcome, returned, bind_outcome}
use sputnikvm.Core.Error.{ExitError, ExitReason, error}
use sputnikvm.Core.Machine as Machine
use sputnikvm.Core.Machine.{Machine}
use sputnikvm.Core.Exec as Exec
use sputnikvm.Core.Exec.{Exec}
use sputnikvm.Runtime.Config.{Config}
use sputnikvm.Runtime.Context.{Context}

pub record Runtime : Type 0 where
  pub machine : Machine
  pub status : Result ExitReason (Unit {0})
  pub return_data_buffer : List ℕ
  pub context : Context
  pub config : Config

-- The code, the data, the context and the configuration.
unfoldable pub new : List ℕ → List ℕ → Context → Config → Runtime
new code input context config = record {
  machine = Machine.new code input config.stack_limit config.memory_limit;
  status = ok tt;
  return_data_buffer = [];
  context = context;
  config = config;
}

-- `Control` of runtime/src/eval/mod.rs
pub data Control (CreateInterrupt CallInterrupt : Type 0) : Type 0 where
  continue : Control CreateInterrupt CallInterrupt
  call_interrupt : CallInterrupt → Control CreateInterrupt CallInterrupt
  create_interrupt : CreateInterrupt → Control CreateInterrupt CallInterrupt
  exit : ExitReason → Control CreateInterrupt CallInterrupt

abbrev pub Act : Type 0 → Type 0 → Type 0 → Type 0 → Type 0
Act H CreateInterrupt CallInterrupt A =
    Runtime → H → Outcome (Result (Control CreateInterrupt CallInterrupt) A × Runtime × H)

module _ {CreateInterrupt CallInterrupt A : Type 0} where
  -- A macro stops a machine by an exit alone, so that the other controls do not occur.
  abbrev pub early_exit : Result Exec.Control A → Result (Control CreateInterrupt CallInterrupt) A
  early_exit (ok a) = ok a
  early_exit (err (Exec.exit e)) = err (exit e)
  early_exit (err (Exec.continue p)) = err continue
  early_exit (err (Exec.jump p)) = err continue
  early_exit (err (Exec.trap o)) = err continue

module _ {H CreateInterrupt CallInterrupt A : Type 0} where
  unfoldable pub pure : A → Act H CreateInterrupt CallInterrupt A
  pure a r h = returned (ok a, r, h)

  unfoldable pub stop :
      Control CreateInterrupt CallInterrupt → Act H CreateInterrupt CallInterrupt A
  stop c r h = returned (err c, r, h)

  unfoldable pub gets : (Runtime → A) → Act H CreateInterrupt CallInterrupt A
  gets f r h = returned (ok (f r), r, h)

  -- An action on the machine of the runtime.
  unfoldable pub on_machine : Exec A → Act H CreateInterrupt CallInterrupt A
  on_machine m r h =
      let (x, machine) = m r.machine in returned (early_exit x, record r { machine = machine }, h)

  -- A function of the handler that answers, and may not return.
  unfoldable pub ask : (H → Outcome (A × H)) → Act H CreateInterrupt CallInterrupt A
  ask f r h = bind_outcome (f h) λ x. returned (ok x.0, r, x.1)

  -- A function of the handler, whose error exits.
  unfoldable pub on_handler : (H → Result ExitError A × H) → Act H CreateInterrupt CallInterrupt A
  on_handler f r h =
      let (x, h') = f h in
      elim x [ ok a ↦ returned (ok a, r, h') | err e ↦ returned (err (exit (error e)), r, h') ]

module _ {H CreateInterrupt CallInterrupt : Type 0} where
  unfoldable pub set_return_data : List ℕ → Act H CreateInterrupt CallInterrupt (Unit {0})
  set_return_data bytes r h = returned (ok tt, record r { return_data_buffer = bytes }, h)

module _ {H CreateInterrupt CallInterrupt A B : Type 0} where
  abbrev pub go_on :
      (A → Act H CreateInterrupt CallInterrupt B)
      → Result (Control CreateInterrupt CallInterrupt) A × Runtime × H
      → Outcome (Result (Control CreateInterrupt CallInterrupt) B × Runtime × H)
  go_on f (ok a, r, h) = f a r h
  go_on f (err c, r, h) = returned (err c, r, h)

  infixl 5 ◌>>=◌ ◌>>◌
  unfoldable pub ◌>>=◌ :
      Act H CreateInterrupt CallInterrupt A
      → (A → Act H CreateInterrupt CallInterrupt B)
      → Act H CreateInterrupt CallInterrupt B
  ◌>>=◌ m f r h = bind_outcome (m r h) (go_on f)

  abbrev pub ◌>>◌ :
      Act H CreateInterrupt CallInterrupt A
      → Act H CreateInterrupt CallInterrupt B
      → Act H CreateInterrupt CallInterrupt B
  m >> k = m >>= λ _. k
