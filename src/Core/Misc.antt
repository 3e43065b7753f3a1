-- ===== src/Core/Misc.antt =====
-- core/src/eval/misc.rs: the opcodes of code, call data, memory, jumps and the stack.
pub mod Keeps
pub mod NoTrap
pub mod Push
use sputnikvm.Base.{
  ℕ, zero, suc, ◌+◌, ◌-◌, min, bit_and, Bool, not, List, [], ◌∷◌, ◌++◌, Option, none, some, ltb,
  leb, ◌==◌, if◌then◌else◌, length, get_or, set, take, drop, replicate, ok, err,
}
use sputnikvm.PrimitiveTypes.{U256Ops, H256, zero_h256, h256_eq, usize_max}
use sputnikvm.Core.Error.{invalid_jump, error, returned, reverted, succeed, revert as exit_revert}
use sputnikvm.Core.Stack
use sputnikvm.Core.Memory
use sputnikvm.Core.Valids
use sputnikvm.Core.Machine.{Machine}
use sputnikvm.Core.Exec.{
  Control, continue, exit, jump as jump_to, Exec, pure, stop, gets, with_stack, with_memory,
  with_memory_fatal, ◌>>=◌, ◌>>◌, pop_value, push_value, pop_u256, push_u256, as_usize_or_fail,
  as_usize_or_fail_with,
}

-- `pop`
pub pop : Exec Control
pop = do pop_value; pure (continue 1)

-- `dup`: `n` counts from 1.
pub dup : ℕ → Exec Control
dup n = do
  value ← with_stack (λ stack. (Stack.peek stack (n - 1), stack))
  push_value value
  pure (continue 1)

pub swap : ℕ → Exec Control
swap n = do
  val1 ← with_stack (λ stack. (Stack.peek stack 0, stack))
  val2 ← with_stack (λ stack. (Stack.peek stack n, stack))
  with_stack (λ stack. Stack.set stack 0 val2)
  with_stack (λ stack. Stack.set stack n val1)
  pure (continue 1)

-- A jump that is taken.
jump_if_valid : ℕ → Bool → Exec Control
jump_if_valid dest valid = if valid then pure (jump_to dest) else stop (exit (error invalid_jump))

-- The bytes that `push` reads: at most `n` after the opcode, as far as the code goes.
pub immediate : List ℕ → ℕ → ℕ → List ℕ
immediate code n position =
    let end = min (position + 1 + n) (length code) in
    take (end - (position + 1)) (drop (position + 1) code)

-- Right-aligned in 32 bytes.
pub right_aligned : List ℕ → H256
right_aligned slice = replicate (32 - length slice) 0 ++ slice

pub push : ℕ → ℕ → Exec Control
push n position = do
  code ← gets (λ s. s.code)
  push_value (right_aligned (immediate code n position))
  pure (continue (1 + n))

module _ ⦃U : U256Ops⦄ where
  pub codesize : Exec Control
  codesize = do code ← gets (λ s. s.code); push_u256 (length code); pure (continue 1)

  resize : ℕ → ℕ → Exec (Unit {0})
  resize offset len = with_memory (λ memory. Memory.resize_offset memory offset len)

  pub codecopy : Exec Control
  codecopy = do
    memory_offset ← pop_u256
    code_offset ← pop_u256
    len ← pop_u256
    resize memory_offset len
    code ← gets (λ s. s.code)
    with_memory_fatal (λ memory. Memory.copy_large memory memory_offset code_offset len code)
    pure (continue 1)

  -- The loop of `calldataload` at byte `i`, with `left` rounds left.
  pub load_loop : List ℕ → ℕ → ℕ → ℕ → List ℕ → List ℕ
  load_loop input index zero i load = load
  load_loop input index (suc left) i load =
      load_loop input index left (i + 1) (elim (U.checked_add index i) [
        | none ↦ load
        | some p ↦
            if leb p usize_max
            then if ltb (U.as_usize p) (length input)
              then set load i (get_or input (U.as_usize p) 0)
              else load
            else load
      ])

  pub calldataload : Exec Control
  unfolding load_loop
  calldataload = do
    index ← pop_u256
    input ← gets (λ s. s.input)
    push_value (load_loop input index 32 0 (replicate 32 0))
    pure (continue 1)

  pub calldatasize : Exec Control
  calldatasize = do input ← gets (λ s. s.input); push_u256 (length input); pure (continue 1)

  copy_calldata : ℕ → ℕ → ℕ → Exec Control
  copy_calldata memory_offset data_offset len = do
    input ← gets (λ s. s.input)
    with_memory_fatal (λ memory. Memory.copy_large memory memory_offset data_offset len input)
    pure (continue 1)

  pub calldatacopy : Exec Control
  unfolding copy_calldata resize
  calldatacopy = do
    memory_offset ← pop_u256
    data_offset ← pop_u256
    len ← pop_u256
    resize memory_offset len
    if len == 0 then pure (continue 1) else copy_calldata memory_offset data_offset len

  pub mload : Exec Control
  unfolding resize
  mload = do
    index ← pop_u256
    resize index 32
    index ← as_usize_or_fail index
    memory ← gets (λ s. s.memory)
    push_value (Memory.get memory index 32)
    pure (continue 1)

  pub mstore : Exec Control
  unfolding resize
  mstore = do
    index ← pop_u256
    value ← pop_value
    resize index 32
    index ← as_usize_or_fail index
    with_memory_fatal (λ memory. Memory.set memory index value (some 32))
    pure (continue 1)

  pub mstore8 : Exec Control
  unfolding resize
  mstore8 = do
    index ← pop_u256
    value ← pop_u256
    resize index 1
    index ← as_usize_or_fail index
    with_memory_fatal
        (λ memory. Memory.set memory index (bit_and (U.low_u32 value) 0xff ∷ []) (some 1))
    pure (continue 1)

  pub jump : Exec Control
  unfolding jump_if_valid
  jump = do
    dest ← pop_u256
    dest ← as_usize_or_fail_with dest invalid_jump
    valid ← gets (λ s. Valids.is_valid s.valids dest)
    jump_if_valid dest valid

  pub jumpi : Exec Control
  unfolding jump_if_valid
  jumpi = do
    dest ← pop_u256
    value ← pop_value
    dest ← as_usize_or_fail_with dest invalid_jump
    valid ← gets (λ s. Valids.is_valid s.valids dest)
    if not (h256_eq value zero_h256) then jump_if_valid dest valid else pure (continue 1)

  pub pc : ℕ → Exec Control
  pc position = do push_u256 position; pure (continue 1)

  pub msize : Exec Control
  msize = do memory ← gets (λ s. s.memory); push_u256 memory.effective_len; pure (continue 1)

  set_return_range : ℕ → ℕ → Exec (Unit {0})
  set_return_range start len s = (ok tt, record s { return_range = (start, U.add start len) })

  pub ret : Exec Control
  unfolding set_return_range resize
  ret = do
    start ← pop_u256
    len ← pop_u256
    resize start len
    set_return_range start len
    pure (exit (succeed returned))

  pub revert : Exec Control
  unfolding set_return_range resize
  revert = do
    start ← pop_u256
    len ← pop_u256
    resize start len
    set_return_range start len
    pure (exit (exit_revert reverted))
