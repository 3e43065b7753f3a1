-- ===== src/Core/Step.antt =====
-- core/src/lib.rs: stepping a machine, and running it.
pub mod Safety
pub mod Exit
pub mod Traps
use sputnikvm.Base.{ℕ, zero, suc, ◌+◌, Option, none, some, ok, err, get_elem?}
use sputnikvm.Base.Result.{Result}
use sputnikvm.PrimitiveTypes.{U256Ops}
use sputnikvm.Core.Error
use sputnikvm.Core.Error.{Capture, ExitReason, succeed, stopped, trap as on_trap}
use sputnikvm.Core.Opcode.{Opcode}
use sputnikvm.Core.Machine.{Machine}
use sputnikvm.Core.Exec.{Control, continue, exit, jump, trap}
use sputnikvm.Core.Eval.{eval}

abbrev pub Captured : Type 0
Captured = Capture ExitReason Opcode

-- What a control does to the position.
pub follow : Control → ℕ → Machine → Result Captured (Unit {0}) × Machine
follow (continue p) position m = (ok tt, record m { position = ok (position + p) })
follow (exit e) position m = (err (Capture.exit e), record m { position = err e })
follow (jump p) position m = (ok tt, record m { position = ok p })
follow (trap opcode) position m = (err (on_trap opcode), record m { position = ok (position + 1) })

module _ ⦃U : U256Ops⦄ where
  unfoldable pub step_at : Machine → Result ExitReason ℕ → Result Captured (Unit {0}) × Machine
  step_at m (err reason) = (err (Capture.exit reason), m)
  step_at m (ok position) = elim (get_elem? m.code position) [
    | none ↦ (err (Capture.exit (succeed stopped)), record m { position = err (succeed stopped) })
    | some opcode ↦ let (c, m') = eval opcode position m in follow c position m'
  ]

  unfoldable pub step : Machine → Result Captured (Unit {0}) × Machine
  unfolding step_at follow
  step m = step_at m m.position

  -- `run` with fuel: `none` means that the machine was still running when the fuel ran out.
  unfoldable pub run : ℕ → Machine → Option Captured × Machine
  run zero m = (none, m)
  run (suc fuel) m = let (r, m') = step m in elim r [ ok _ ↦ run fuel m' | err c ↦ (some c, m') ]
