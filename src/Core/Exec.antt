-- ===== src/Core/Exec.antt =====
-- core/src/eval/macros.rs: what the handlers of opcodes are made of. A handler changes the machine and
-- returns a `Control`; a macro that fails returns early with the control that exits, and what was done
-- before it stays done. So a handler is an action with a state and an early return.
pub mod Keeps
pub mod Macros
pub mod NoTrap
use sputnikvm.Base.{ℕ, ok, err, ltb, if◌then◌else◌, List}
use sputnikvm.Base.Result.{Result}
use sputnikvm.PrimitiveTypes.{U256Ops, H256, usize_max}
use sputnikvm.Core.Error
use sputnikvm.Core.Error.{ExitError, ExitFatal, ExitReason, error, fatal, not_supported}
use sputnikvm.Core.Opcode.{Opcode}
use sputnikvm.Core.Stack
use sputnikvm.Core.Stack.{Stack}
use sputnikvm.Core.Memory
use sputnikvm.Core.Memory.{Memory}
use sputnikvm.Core.Machine.{Machine}

-- `Control` of core/src/eval/mod.rs
pub data Control : Type 0 where
  continue : ℕ → Control
  exit : ExitReason → Control
  jump : ℕ → Control
  trap : Opcode → Control

-- The control that a handler returns, early or at its end.
abbrev pub control_of : Result Control Control → Control
control_of (ok c) = c
control_of (err c) = c

abbrev pub Exec : Type 0 → Type 0
Exec A = Machine → Result Control A × Machine

module _ {A : Type 0} where
  unfoldable pub pure : A → Exec A
  pure a s = (ok a, s)

  unfoldable pub stop : Control → Exec A
  stop c s = (err c, s)

  unfoldable pub gets : (Machine → A) → Exec A
  gets f s = (ok (f s), s)

  -- `try_or_fail!`, and the `Err(e) => Control::Exit(e.into())` branches.
  abbrev pub or_exit : Result ExitError A → Result Control A
  or_exit (ok a) = ok a
  or_exit (err e) = err (exit (error e))

  abbrev pub or_exit_fatal : Result ExitFatal A → Result Control A
  or_exit_fatal (ok a) = ok a
  or_exit_fatal (err e) = err (exit (fatal e))

  -- An action of the stack or of the memory, as one of the machine.
  unfoldable pub with_stack : (Stack → Result ExitError A × Stack) → Exec A
  with_stack f s = let (r, stack) = f s.stack in (or_exit r, record s { stack = stack })

  unfoldable pub with_memory : (Memory → Result ExitError A × Memory) → Exec A
  with_memory f s = let (r, memory) = f s.memory in (or_exit r, record s { memory = memory })

  unfoldable pub with_memory_fatal : (Memory → Result ExitFatal A × Memory) → Exec A
  with_memory_fatal f s =
      let (r, memory) = f s.memory in (or_exit_fatal r, record s { memory = memory })

module _ {A B : Type 0} where
  abbrev pub go_on : Result Control A → (A → Exec B) → Exec B
  go_on (ok a) f s = f a s
  go_on (err c) f s = (err c, s)

  infixl 5 ◌>>=◌ ◌>>◌
  unfoldable pub ◌>>=◌ : Exec A → (A → Exec B) → Exec B
  ◌>>=◌ m f s = let (r, s') = m s in go_on r f s'

  abbrev pub ◌>>◌ : Exec A → Exec B → Exec B
  m >> k = m >>= λ _. k

-- `pop!`
unfoldable pub pop_value : Exec H256
pop_value = with_stack Stack.pop

-- `push!`
unfoldable pub push_value : H256 → Exec (Unit {0})
push_value v = with_stack (λ stack. Stack.push stack v)

module _ ⦃U : U256Ops⦄ where
  -- `pop_u256!`
  unfoldable pub pop_u256 : Exec ℕ
  pop_u256 = do value ← pop_value; pure (U.from_big_endian value)

  -- `push_u256!`
  unfoldable pub push_u256 : ℕ → Exec (Unit {0})
  push_u256 x = push_value (U.to_big_endian x)

  -- `as_usize_or_fail!`, without and with a reason.
  unfoldable pub as_usize_or_fail : ℕ → Exec ℕ
  as_usize_or_fail v =
      if ltb usize_max v then stop (exit (fatal not_supported)) else pure (U.as_usize v)

  unfoldable pub as_usize_or_fail_with : ℕ → ExitError → Exec ℕ
  as_usize_or_fail_with v reason =
      if ltb usize_max v then stop (exit (error reason)) else pure (U.as_usize v)

  -- `op1_u256_fn!`; `op2_u256_fn!`, `op2_u256!`, `op2_u256_tuple!` and `op2_u256_bool_ref!`;
  -- `op3_u256_fn!`
  unfoldable pub op1_u256_fn : (ℕ → ℕ) → Exec Control
  op1_u256_fn op = do op1 ← pop_u256; push_u256 (op op1); pure (continue 1)

  unfoldable pub op2_u256_fn : (ℕ → ℕ → ℕ) → Exec Control
  op2_u256_fn op = do op1 ← pop_u256; op2 ← pop_u256; push_u256 (op op1 op2); pure (continue 1)

  unfoldable pub op3_u256_fn : (ℕ → ℕ → ℕ → ℕ) → Exec Control
  op3_u256_fn op = do
    op1 ← pop_u256
    op2 ← pop_u256
    op3 ← pop_u256
    push_u256 (op op1 op2 op3)
    pure (continue 1)
