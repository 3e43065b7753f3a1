-- ===== src/Core/Misc/NoTrap.antt =====
-- core/src/eval/misc.rs: the handlers never trap.
use sputnikvm.Base.{ℕ, Bool}
use sputnikvm.PrimitiveTypes.{U256Ops}
use sputnikvm.Core.Exec.Keeps.{went_on}
use sputnikvm.Core.Exec.NoTrap.{Early, NoTrap, no_trap_rules}
use sputnikvm.Core.Misc.{
  pop, dup, swap, jump_if_valid, push, codesize, resize, codecopy, calldataload, calldatasize,
  calldatacopy, copy_calldata, mload, mstore, mstore8, jump, jumpi, pc, msize, set_return_range,
  ret, revert,
}

pub NoTrap-pop : NoTrap pop
unfolding pop
NoTrap-pop = search no_trap_rules depth 12

pub NoTrap-dup : (n : ℕ) → NoTrap (dup n)
unfolding dup
NoTrap-dup n = search no_trap_rules depth 12

pub NoTrap-swap : (n : ℕ) → NoTrap (swap n)
unfolding swap
NoTrap-swap n = search no_trap_rules depth 12

pub NoTrap-push : (n position : ℕ) → NoTrap (push n position)
unfolding push
NoTrap-push n position = search no_trap_rules depth 12

NoTrap-jump_if_valid : (dest : ℕ) (b : Bool) → NoTrap (jump_if_valid dest b)
unfolding jump_if_valid
NoTrap-jump_if_valid dest b = search no_trap_rules

module _ ⦃U : U256Ops⦄ where
  Early-resize : (offset len : ℕ) → Early (resize offset len)
  unfolding resize
  Early-resize offset len = search no_trap_rules

  Early-set_return_range : (start len : ℕ) → Early (set_return_range start len)
  unfolding set_return_range
  Early-set_return_range start len = record { at = λ s. went_on tt }

  NoTrap-copy_calldata : (m d len : ℕ) → NoTrap (copy_calldata m d len)
  unfolding copy_calldata
  NoTrap-copy_calldata m d len = search no_trap_rules depth 12

  ruleset misc_rules = (
    no_trap_rules, Early-resize, Early-set_return_range, NoTrap-copy_calldata, NoTrap-jump_if_valid,
  )

  pub NoTrap-codesize : NoTrap codesize
  unfolding codesize
  NoTrap-codesize = search misc_rules depth 12

  pub NoTrap-codecopy : NoTrap codecopy
  unfolding codecopy
  NoTrap-codecopy = search misc_rules depth 12

  pub NoTrap-calldataload : NoTrap calldataload
  unfolding calldataload
  NoTrap-calldataload = search misc_rules depth 12

  pub NoTrap-calldatasize : NoTrap calldatasize
  unfolding calldatasize
  NoTrap-calldatasize = search misc_rules depth 12

  pub NoTrap-calldatacopy : NoTrap calldatacopy
  unfolding calldatacopy
  NoTrap-calldatacopy = search misc_rules depth 12

  pub NoTrap-mload : NoTrap mload
  unfolding mload
  NoTrap-mload = search misc_rules depth 12

  pub NoTrap-mstore : NoTrap mstore
  unfolding mstore
  NoTrap-mstore = search misc_rules depth 12

  pub NoTrap-mstore8 : NoTrap mstore8
  unfolding mstore8
  NoTrap-mstore8 = search misc_rules depth 12

  pub NoTrap-jump_op : NoTrap jump
  unfolding jump
  NoTrap-jump_op = search misc_rules depth 12

  pub NoTrap-jumpi : NoTrap jumpi
  unfolding jumpi
  NoTrap-jumpi = search misc_rules depth 12

  pub NoTrap-msize : NoTrap msize
  unfolding msize
  NoTrap-msize = search misc_rules depth 12

  pub NoTrap-ret : NoTrap ret
  unfolding ret
  NoTrap-ret = search misc_rules depth 12

  pub NoTrap-revert : NoTrap revert
  unfolding revert
  NoTrap-revert = search misc_rules depth 12

  pub NoTrap-pc : (position : ℕ) → NoTrap (pc position)
  unfolding pc
  NoTrap-pc position = search misc_rules depth 12
