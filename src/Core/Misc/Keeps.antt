-- ===== src/Core/Misc/Keeps.antt =====
-- core/src/eval/misc.rs: what each handler keeps of a machine, and asks for.
use sputnikvm.Base.{ℕ, ◌+◌, ◌≤◌, ◌≡◌, refl, subst, Bool, true, false, List}
use sputnikvm.PrimitiveTypes.{U256Ops, usize_max}
use sputnikvm.Core.Stack.Bounds.{set-Fits}
use sputnikvm.Core.Memory.Bounds.{resize_offset-Fits, copy_large-Fits, set-Fits as set_memory-Fits}
use sputnikvm.Core.Valids
use sputnikvm.Core.Exec.{Control, Exec, pure, stop, gets, ◌>>=◌}
use sputnikvm.Core.Exec.Keeps.{went_on, Keeps, Handles}
use sputnikvm.Core.Exec.Macros.{macro_rules}
use sputnikvm.Core.Misc.{
  pop, dup, swap, jump_if_valid, push, codesize, resize, codecopy, calldataload, calldatasize,
  calldatacopy, mload, mstore, mstore8, jump, jumpi, pc, msize, set_return_range, ret, revert,
}

module _ {code : List ℕ} {sl ml : ℕ} where
  pub Handles-pop : Handles code sl ml 1 pop
  unfolding pop
  Handles-pop = search macro_rules depth 12

  pub Handles-dup : (n : ℕ) → Handles code sl ml 1 (dup n)
  unfolding dup
  Handles-dup n = search macro_rules depth 12

  pub Handles-swap : (n : ℕ) → Handles code sl ml 1 (swap n)
  unfolding swap
  Handles-swap n = search (macro_rules, set-Fits) depth 12

  pub Handles-push : (n position : ℕ) → Handles code sl ml (1 + n) (push n position)
  unfolding push
  Handles-push n position = search macro_rules depth 12

module _ ⦃U : U256Ops⦄ {code : List ℕ} {sl ml : ℕ} where
  Keeps-resize : (offset len : ℕ) → Keeps code sl ml (resize offset len)
  unfolding resize
  Keeps-resize offset len = search (macro_rules, resize_offset-Fits)

  Keeps-set_return_range : (start len : ℕ) → Keeps code sl ml (set_return_range start len)
  unfolding set_return_range
  Keeps-set_return_range start len = record {
    at = λ s h. (
      record {
        same_code = h.same_code;
        same_valids = h.same_valids;
        stack_fits = h.stack_fits;
        memory_fits = h.memory_fits;
      },
      went_on tt,
    );
  }

  pub Handles-codesize : Handles code sl ml 1 codesize
  unfolding codesize
  Handles-codesize = search macro_rules depth 12

  pub Handles-calldatasize : Handles code sl ml 1 calldatasize
  unfolding calldatasize
  Handles-calldatasize = search macro_rules depth 12

  pub Handles-calldataload : Handles code sl ml 1 calldataload
  unfolding calldataload
  Handles-calldataload = search macro_rules depth 12

  pub Handles-pc : (position : ℕ) → Handles code sl ml 1 (pc position)
  unfolding pc
  Handles-pc position = search macro_rules depth 12

  pub Handles-msize : Handles code sl ml 1 msize
  unfolding msize
  Handles-msize = search macro_rules depth 12

  pub Handles-mload : Handles code sl ml 1 mload
  unfolding mload
  Handles-mload = search (macro_rules, Keeps-resize) depth 12

  pub Handles-ret : Handles code sl ml 1 ret
  unfolding ret
  Handles-ret = search (macro_rules, Keeps-resize, Keeps-set_return_range) depth 12

  pub Handles-revert : Handles code sl ml 1 revert
  unfolding revert
  Handles-revert = search (macro_rules, Keeps-resize, Keeps-set_return_range) depth 12

  -- What a jump learns from the validity map of a sound machine.
  Handles-gets_valid :
      {size : ℕ} (dest : ℕ) (f : Bool → Exec Control)
      → ((b : Bool)
          → (b ≡ true → Valids.is_valid (Valids.new code) dest ≡ true)
          → Handles code sl ml size (f b))
      → Handles code sl ml size (gets (λ s. Valids.is_valid s.valids dest) >>= f)
  unfolding ◌>>=◌ gets
  Handles-gets_valid dest f kf = record {
    at = λ s h.
        let known : Valids.is_valid s.valids dest ≡ true
            → Valids.is_valid (Valids.new code) dest ≡ true =
          λ e. subst (λ v. Valids.is_valid v dest ≡ true) h.same_valids e in
        (kf (Valids.is_valid s.valids dest) known).at s h;
  }

  Handles-jump_if_valid :
      {size : ℕ} (dest : ℕ) (b : Bool)
      → (b ≡ true → Valids.is_valid (Valids.new code) dest ≡ true)
      → Handles code sl ml size (jump_if_valid dest b)
  unfolding jump_if_valid pure stop
  Handles-jump_if_valid dest true valid = record { at = λ s h. (h, valid refl) }
  Handles-jump_if_valid dest false valid = record { at = λ s h. (h, tt) }

  pub Handles-jump : Handles code sl ml 1 jump
  Handles-jump =
      unfold jump in search (macro_rules, Handles-gets_valid, Handles-jump_if_valid) depth 12

  pub Handles-jumpi : Handles code sl ml 1 jumpi
  Handles-jumpi =
      unfold jumpi in search (macro_rules, Handles-gets_valid, Handles-jump_if_valid) depth 12

module _ ⦃U : U256Ops⦄ {code : List ℕ} {sl ml : ℕ} (small : ml ≤ usize_max) where
  pub Handles-codecopy : Handles code sl ml 1 codecopy
  unfolding codecopy
  Handles-codecopy = search (macro_rules, Keeps-resize, copy_large-Fits) depth 12

  pub Handles-calldatacopy : Handles code sl ml 1 calldatacopy
  unfolding calldatacopy
  Handles-calldatacopy = search (macro_rules, Keeps-resize, copy_large-Fits) depth 12

  pub Handles-mstore : Handles code sl ml 1 mstore
  unfolding mstore
  Handles-mstore = search (macro_rules, Keeps-resize, set_memory-Fits) depth 12

  pub Handles-mstore8 : Handles code sl ml 1 mstore8
  unfolding mstore8
  Handles-mstore8 = search (macro_rules, Keeps-resize, set_memory-Fits) depth 12
