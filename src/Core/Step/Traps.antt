-- ===== src/Core/Step/Traps.antt =====
-- core/src/lib.rs: what a step that traps has done.
use sputnikvm.Base.{ℕ, some, ok, err, ◌≡◌, refl, get_elem?, Option-cases, inl, inr}
use sputnikvm.Base.Result.{Result}
use sputnikvm.PrimitiveTypes.{U256Ops}
use sputnikvm.Core.Error as Error
use sputnikvm.Core.Error.{ExitReason}
use sputnikvm.Core.Opcode.{Opcode}
use sputnikvm.Core.Machine.{Machine, inspect}
use sputnikvm.Core.Machine.Inspect.{inspect-some}
use sputnikvm.Core.Exec.{Control}
use sputnikvm.Core.Exec.NoTrap.{continues, jumps, exits}
use sputnikvm.Core.Eval.NoTrap.{TrapsAs, silent, traps, eval-TrapsAs}
use sputnikvm.Core.Step.{Captured, follow, step, step_at}

-- The result of a step and the machine after it. A trap is for the opcode that was inspected, and leaves
-- the stack as it was.
pub data StepsFrom (m : Machine) : Result Captured (Unit {0}) → Machine → Type 0 where
  steps : (n : Machine) → StepsFrom m (ok tt) n
  stops : (e : ExitReason) (n : Machine) → StepsFrom m (err (Error.exit e)) n
  traps_at :
      (op : Opcode) (n : Machine)
      → inspect m ≡ some (op, m.stack)
      → n.stack ≡ m.stack
      → StepsFrom m (err (Error.trap op)) n

follow-StepsFrom :
    (m : Machine) (op position : ℕ) {c : Control} {n : Machine}
    → inspect m ≡ some (op, m.stack)
    → TrapsAs op m c n
    → StepsFrom m (follow c position n).0 (follow c position n).1
unfolding follow
follow-StepsFrom m op position h (silent _ n (continues p)) = steps _
follow-StepsFrom m op position h (silent _ n (jumps p)) = steps _
follow-StepsFrom m op position h (silent _ n (exits e)) = stops e _
follow-StepsFrom m op position h traps = traps_at op _ h refl

module _ ⦃U : U256Ops⦄ where
  step_at-StepsFrom :
      (m : Machine) (position : Result ExitReason ℕ)
      → m.position ≡ position
      → StepsFrom m (step_at m position).0 (step_at m position).1
  unfolding step_at
  step_at-StepsFrom m (err e) h = stops e m
  step_at-StepsFrom m (ok position) h = elim (Option-cases (get_elem? m.code position)) [
    | inl g ↦ rw (g, step_at) (stops _ _)
    | inr (op, g) ↦
        rw (g, step_at)
          (follow-StepsFrom m op position (inspect-some m position op h g)
            (eval-TrapsAs op position m))
  ]

  pub step-StepsFrom : (m : Machine) → StepsFrom m (step m).0 (step m).1
  unfolding step
  step-StepsFrom m = step_at-StepsFrom m m.position refl
