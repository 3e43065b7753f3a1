-- ===== src/Tests/Steps.antt =====
-- core/src/lib.rs and core/src/valids.rs on a concrete code.
use sputnikvm.Base.{
  ℕ, ◌<◌, ◌≡◌, ◌↔◌, true, List, [], ◌∷◌, refl, arith, err, ok, ◌+◌, ◌-◌, length, get_or, ltb,
  if◌then◌else◌,
}
use sputnikvm.PrimitiveTypes.{H256}
use sputnikvm.PrimitiveTypes.Native.{native_ops}
use sputnikvm.Core.Error.{Capture, succeed, stopped}
use sputnikvm.Core.Opcode
use sputnikvm.Core.Valids.{is_valid, new}
use sputnikvm.Core.Valids.Boundary.{Boundary, is_valid-new_iff}
use sputnikvm.Core.Machine
use sputnikvm.Core.Machine.{Machine}
use sputnikvm.Core.Exec.Keeps.{IsSound, Allowed}
use sputnikvm.Core.Eval.{eval}
use sputnikvm.Core.Eval.Keeps.{eval-Allowed}
use sputnikvm.Core.Stack
use sputnikvm.Core.Misc.{push}
use sputnikvm.Core.Misc.Push.{push_lem}
use sputnikvm.Core.Exec.{continue}
use sputnikvm.Core.Step.{step, step_at, run}
use sputnikvm.Core.Step.Safety.{Stands, run-Stands, run-IsSound}
use sputnikvm.Core.Step.Exit.{step-step-exit}

-- PUSH1 4; JUMP; a byte that is no instruction of the run; JUMPDEST; PUSH1 0x5b.
abbrev demo_code : List ℕ
demo_code = 0x60 ∷ 4 ∷ 0x56 ∷ 0 ∷ 0x5b ∷ 0x60 ∷ 0x5b ∷ []

abbrev demo : Machine
demo = Machine.new demo_code [] 1024 4096

is_valid-new_iff_example :
    (is_valid (new demo_code) 4 ≡ true)
    ↔ (Boundary demo_code 4 × (4 < 7) × (0x5b ≡ Opcode.jumpdest))
is_valid-new_iff_example = is_valid-new_iff demo_code 4

run-Stands_example : Stands demo_code (run 3 demo).1.position
run-Stands_example = run-Stands demo_code [] 1024 4096 3 (omega arith)

run-IsSound_example : IsSound demo_code 1024 4096 (run 3 demo).1
run-IsSound_example = run-IsSound demo_code [] 1024 4096 3 (omega arith)

eval-Allowed_example :
    IsSound demo_code 1024 4096 (eval 0x60 0 (run 0 demo).1).1
    × Allowed demo_code 2 (eval 0x60 0 (run 0 demo).1).0
eval-Allowed_example =
    eval-Allowed 0x60 0 (run 0 demo).1 (omega arith)
      (run-IsSound demo_code [] 1024 4096 0 (omega arith))

-- A machine without code.
abbrev idle : Machine
idle = Machine.new [] [] 1024 4096

idle_stops : (step idle).0 ≡ err (Capture.exit (succeed stopped))
unfolding step step_at Machine.new
idle_stops = refl

step-step-exit_example : step (step idle).1 ≡ (err (Capture.exit (succeed stopped)), (step idle).1)
step-step-exit_example = step-step-exit idle (succeed stopped) idle_stops

-- PUSH2 0x0102.
abbrev pushing : Machine
pushing = Machine.new (0x61 ∷ 1 ∷ 2 ∷ []) [] 1024 4096

push_lem_example :
    (item : H256) × (length item ≡ 32)
    × ((k : ℕ)
        → k < 32
        → get_or item (31 - k) 0 ≡ (if ltb k 2 then get_or pushing.code (0 + 2 - k) 0 else 0))
    × (push 2 0 pushing ≡ (
      ok (continue (1 + 2)),
      record pushing { stack = record pushing.stack { data_items = item ∷ [] } },
    ))
unfolding Machine.new Stack.new
push_lem_example = push_lem 2 0 pushing (omega arith) (omega arith) (omega arith)
