-- ===== src/Core/Exec/Macros.antt =====
-- core/src/eval/macros.rs: what the macros keep of a machine.
use sputnikvm.Base.{ℕ, List}
use sputnikvm.PrimitiveTypes.{U256Ops, H256}
use sputnikvm.Core.Error.{ExitError}
use sputnikvm.Core.Stack
use sputnikvm.Core.Stack.Bounds.{pop-Fits, push-Fits}
use sputnikvm.Core.Exec.{
  pop_value, push_value, pop_u256, push_u256, as_usize_or_fail, as_usize_or_fail_with, op1_u256_fn,
  op2_u256_fn, op3_u256_fn,
}
use sputnikvm.Core.Exec.Keeps.{
  Keeps, Handles, exec_rules, Keeps-with_stack, Keeps-if, Keeps-stop, Keeps-pure,
}

module _ {code : List ℕ} {sl ml : ℕ} where
  pub Keeps-pop_value : Keeps code sl ml pop_value
  unfolding pop_value
  Keeps-pop_value = Keeps-with_stack Stack.pop pop-Fits

  pub Keeps-push_value : (v : H256) → Keeps code sl ml (push_value v)
  unfolding push_value
  Keeps-push_value v = Keeps-with_stack (λ stack. Stack.push stack v) (push-Fits v)

module _ ⦃U : U256Ops⦄ {code : List ℕ} {sl ml : ℕ} where
  pub Keeps-pop_u256 : Keeps code sl ml pop_u256
  unfolding pop_u256
  Keeps-pop_u256 = search (exec_rules, Keeps-pop_value)

  pub Keeps-push_u256 : (x : ℕ) → Keeps code sl ml (push_u256 x)
  unfolding push_u256
  Keeps-push_u256 x = Keeps-push_value (U.to_big_endian x)

  pub Keeps-as_usize_or_fail : (v : ℕ) → Keeps code sl ml (as_usize_or_fail v)
  unfolding as_usize_or_fail
  Keeps-as_usize_or_fail v = search exec_rules

  pub Keeps-as_usize_or_fail_with :
      (v : ℕ) (e : ExitError) → Keeps code sl ml (as_usize_or_fail_with v e)
  unfolding as_usize_or_fail_with
  Keeps-as_usize_or_fail_with v e = search exec_rules

  pub Handles-op1 : (op : ℕ → ℕ) → Handles code sl ml 1 (op1_u256_fn op)
  unfolding op1_u256_fn
  Handles-op1 op = search (exec_rules, Keeps-pop_u256, Keeps-push_u256) depth 12

  pub Handles-op2 : (op : ℕ → ℕ → ℕ) → Handles code sl ml 1 (op2_u256_fn op)
  unfolding op2_u256_fn
  Handles-op2 op = search (exec_rules, Keeps-pop_u256, Keeps-push_u256) depth 12

  pub Handles-op3 : (op : ℕ → ℕ → ℕ → ℕ) → Handles code sl ml 1 (op3_u256_fn op)
  unfolding op3_u256_fn
  Handles-op3 op = search (exec_rules, Keeps-pop_u256, Keeps-push_u256) depth 12

pub ruleset macro_rules = (
  exec_rules, Keeps-pop_value, Keeps-push_value, Keeps-pop_u256, Keeps-push_u256,
  Keeps-as_usize_or_fail, Keeps-as_usize_or_fail_with,
)
