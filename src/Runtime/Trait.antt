-- ===== src/Runtime/Trait.antt =====
-- runtime/src/handler.rs: the trait of a handler, as a record of functions. `H` is the type that implements
-- it; an operation that changes it also returns the handler after it.
use sputnikvm.Base.{ℕ, Bool, List, Option, err}
use sputnikvm.Base.Result.{Result}
use sputnikvm.Base.Outcome.{Outcome}
use sputnikvm.PrimitiveTypes.{H160, H256}
use sputnikvm.Core.Error.{Capture, ExitError, ExitReason, out_of_gas}
use sputnikvm.Core.Opcode.{Opcode}
use sputnikvm.Core.Stack as Core
use sputnikvm.Core.Machine.{Machine}
use sputnikvm.Runtime.Context.{CreateScheme, Context, Transfer}
use sputnikvm.Runtime.Handler.{Handler}

-- What a creation and a call exit with.
abbrev pub Created : Type 0
Created = ExitReason × Option H160 × List ℕ

abbrev pub Called : Type 0
Called = ExitReason × List ℕ

-- The last two are the types of the interrupts.
pub record HandlerTrait (H CreateInterrupt CallInterrupt : Type 0) : Type 0 where
  -- The functions that change nothing.
  pub as_handler : H → Handler
  pub set_storage : H → H160 → H256 → H256 → Result ExitError (Unit {0}) × H
  pub log : H → H160 → List H256 → List ℕ → Result ExitError (Unit {0}) × H
  pub mark_delete : H → H160 → H160 → Result ExitError (Unit {0}) × H
  pub create :
      H
      → H160
      → CreateScheme
      → ℕ
      → List ℕ
      → Option ℕ
      → Outcome (Capture Created CreateInterrupt × H)
  pub call :
      H
      → H160
      → Option Transfer
      → List ℕ
      → Option ℕ
      → Bool
      → Context
      → Outcome (Capture Called CallInterrupt × H)
  pub pre_validate : H → Context → Opcode → Core.Stack → Result ExitError (Unit {0}) × H
  pub other : H → Opcode → Machine → Result ExitError (Unit {0}) × Machine × H

-- The function `other` of the trait, unless the handler has its own.
unfoldable pub default_other :
    {H : Type 0} → H → Opcode → Machine → Result ExitError (Unit {0}) × Machine × H
default_other handler opcode machine = (err out_of_gas, machine, handler)
