-- ===== src/Core/Machine.antt =====
-- core/src/lib.rs: the state of a machine.
pub mod Inspect
use sputnikvm.Base.{
  ℕ, ◌-◌, List, ◌++◌, Option, none, some, ok, err, ltb, if◌then◌else◌, length, replicate, get_elem?,
}
use sputnikvm.Base.Result.{Result}
use sputnikvm.PrimitiveTypes.{U256Ops, usize_max}
use sputnikvm.Core.Error.{ExitReason}
use sputnikvm.Core.Opcode.{Opcode}
use sputnikvm.Core.Stack
use sputnikvm.Core.Stack.{Stack}
use sputnikvm.Core.Memory
use sputnikvm.Core.Memory.{Memory}
use sputnikvm.Core.Valids
use sputnikvm.Core.Valids.{Valids}

pub record Machine : Type 0 where
  pub input : List ℕ
  pub code : List ℕ
  pub position : Result ExitReason ℕ
  pub return_range : ℕ × ℕ
  pub valids : Valids
  pub memory : Memory
  pub stack : Stack

unfoldable pub new : List ℕ → List ℕ → ℕ → ℕ → Machine
new code input stack_limit memory_limit = record {
  input = input;
  code = code;
  position = ok 0;
  return_range = (0, 0);
  valids = Valids.new code;
  memory = Memory.new memory_limit;
  stack = Stack.new stack_limit;
}

unfoldable pub exit : Machine → ExitReason → Machine
exit m reason = record m { position = err reason }

inspect_at : List ℕ → Stack → Result ExitReason ℕ → Option (Opcode × Stack)
inspect_at code stack (err e) = none
inspect_at code stack (ok position) = elim (get_elem? code position) [
  | none ↦ none
  | some v ↦ some (v, stack)
]

pub inspect : Machine → Option (Opcode × Stack)
unfolding inspect_at
inspect m = inspect_at m.code m.stack m.position

-- `while ret.len() < n { ret.push(0) }`
abbrev pad : ℕ → List ℕ → List ℕ
pad n ret = ret ++ replicate (n - length ret) 0

module _ ⦃U : U256Ops⦄ where
  unfoldable pub return_value : Machine → List ℕ
  return_value m =
      let (start, end) = m.return_range in
      if ltb usize_max start
      then replicate (U.as_usize (U.sub end start)) 0
      else if ltb usize_max end
      then pad (U.as_usize (U.sub end start))
          (Memory.get m.memory (U.as_usize start) (usize_max - U.as_usize start))
      else Memory.get m.memory (U.as_usize start) (U.as_usize (U.sub end start))
