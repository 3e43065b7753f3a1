-- ===== src/Core/Exec/NoTrap.antt =====
-- core/src/eval/macros.rs: rules for the actions that never trap, one for each way to build one.
use sputnikvm.Base.{ℕ, Bool, true, false, ok, err, if◌then◌else◌}
use sputnikvm.Base.Result.{Result}
use sputnikvm.PrimitiveTypes.{U256Ops, H256}
use sputnikvm.Core.Error.{ExitError, ExitFatal, ExitReason}
use sputnikvm.Core.Stack.{Stack}
use sputnikvm.Core.Memory.{Memory}
use sputnikvm.Core.Machine.{Machine}
use sputnikvm.Core.Exec.{
  Control, continue, exit, jump, Exec, control_of, pure, stop, gets, with_stack, with_memory,
  with_memory_fatal, or_exit, or_exit_fatal, go_on, ◌>>=◌, pop_value, push_value, pop_u256,
  push_u256, as_usize_or_fail, as_usize_or_fail_with, op1_u256_fn, op2_u256_fn, op3_u256_fn,
}
use sputnikvm.Core.Exec.Keeps.{EarlyExit, went_on, exited}

-- A control that is no trap.
pub data IsNoTrap : Control → Type 0 where
  continues : (p : ℕ) → IsNoTrap (continue p)
  jumps : (p : ℕ) → IsNoTrap (jump p)
  exits : (e : ExitReason) → IsNoTrap (exit e)

-- The action stops early, if at all, by an exit.
pub record Early {A : Type 0} (m : Exec A) : Type 0 where
  pub at : (s : Machine) → EarlyExit (m s).0

-- The handler asks for no trap.
pub record NoTrap (m : Exec Control) : Type 0 where
  pub at : (s : Machine) → IsNoTrap (control_of (m s).0)

or_exit-EarlyExit : {A : Type 0} (r : Result ExitError A) → EarlyExit (or_exit r)
or_exit-EarlyExit (ok a) = went_on a
or_exit-EarlyExit (err e) = exited _

or_exit_fatal-EarlyExit : {A : Type 0} (r : Result ExitFatal A) → EarlyExit (or_exit_fatal r)
or_exit_fatal-EarlyExit (ok a) = went_on a
or_exit_fatal-EarlyExit (err e) = exited _

module _ {A : Type 0} where
  pub Early-pure : (a : A) → Early (pure a)
  unfolding pure
  Early-pure a = record { at = λ s. went_on a }

  pub Early-stop : (e : ExitReason) → Early (stop {A = A} (exit e))
  unfolding stop
  Early-stop e = record { at = λ s. exited e }

  pub Early-gets : (f : Machine → A) → Early (gets f)
  unfolding gets
  Early-gets f = record { at = λ s. went_on (f s) }

  pub Early-if : (b : Bool) (m n : Exec A) → Early m → Early n → Early (if b then m else n)
  Early-if true m n km kn = km
  Early-if false m n km kn = kn

  pub Early-with_stack : (f : Stack → Result ExitError A × Stack) → Early (with_stack f)
  unfolding with_stack
  Early-with_stack f = record { at = λ s. or_exit-EarlyExit (f s.stack).0 }

  pub Early-with_memory : (f : Memory → Result ExitError A × Memory) → Early (with_memory f)
  unfolding with_memory
  Early-with_memory f = record { at = λ s. or_exit-EarlyExit (f s.memory).0 }

  pub Early-with_memory_fatal :
      (f : Memory → Result ExitFatal A × Memory) → Early (with_memory_fatal f)
  unfolding with_memory_fatal
  Early-with_memory_fatal f = record { at = λ s. or_exit_fatal-EarlyExit (f s.memory).0 }

module _ {A B : Type 0} where
  go_on-EarlyExit :
      {r : Result Control A} (f : A → Exec B) (s : Machine)
      → EarlyExit r
      → ((a : A) → Early (f a))
      → EarlyExit (go_on r f s).0
  go_on-EarlyExit f s (went_on a) k = (k a).at s
  go_on-EarlyExit f s (exited e) k = exited e

  pub Early-bind :
      (m : Exec A) (f : A → Exec B) → Early m → ((a : A) → Early (f a)) → Early (m >>= f)
  unfolding ◌>>=◌
  Early-bind m f km kf = record { at = λ s. go_on-EarlyExit f (m s).1 (km.at s) kf }

module _ {A : Type 0} where
  go_on-IsNoTrap :
      {r : Result Control A} (f : A → Exec Control) (s : Machine)
      → EarlyExit r
      → ((a : A) → NoTrap (f a))
      → IsNoTrap (control_of (go_on r f s).0)
  go_on-IsNoTrap f s (went_on a) k = (k a).at s
  go_on-IsNoTrap f s (exited e) k = exits e

  pub NoTrap-bind :
      (m : Exec A) (f : A → Exec Control) → Early m → ((a : A) → NoTrap (f a)) → NoTrap (m >>= f)
  unfolding ◌>>=◌
  NoTrap-bind m f km kf = record { at = λ s. go_on-IsNoTrap f (m s).1 (km.at s) kf }

pub NoTrap-continue : (p : ℕ) → NoTrap (pure (continue p))
unfolding pure
NoTrap-continue p = record { at = λ s. continues p }

pub NoTrap-jump : (p : ℕ) → NoTrap (pure (jump p))
unfolding pure
NoTrap-jump p = record { at = λ s. jumps p }

pub NoTrap-exit : (e : ExitReason) → NoTrap (pure (exit e))
unfolding pure
NoTrap-exit e = record { at = λ s. exits e }

pub NoTrap-stop : (e : ExitReason) → NoTrap (stop (exit e))
unfolding stop
NoTrap-stop e = record { at = λ s. exits e }

pub NoTrap-if : (b : Bool) (m n : Exec Control) → NoTrap m → NoTrap n → NoTrap (if b then m else n)
NoTrap-if true m n km kn = km
NoTrap-if false m n km kn = kn

pub Early-pop_value : Early pop_value
unfolding pop_value
Early-pop_value = Early-with_stack _

pub Early-push_value : (v : H256) → Early (push_value v)
unfolding push_value
Early-push_value v = Early-with_stack _

module _ ⦃U : U256Ops⦄ where
  pub Early-pop_u256 : Early pop_u256
  unfolding pop_u256
  Early-pop_u256 = search (Early-bind, Early-pure, Early-pop_value)

  pub Early-push_u256 : (x : ℕ) → Early (push_u256 x)
  unfolding push_u256
  Early-push_u256 x = Early-push_value (U.to_big_endian x)

  pub Early-as_usize_or_fail : (v : ℕ) → Early (as_usize_or_fail v)
  unfolding as_usize_or_fail
  Early-as_usize_or_fail v = search (Early-if, Early-stop, Early-pure)

  pub Early-as_usize_or_fail_with : (v : ℕ) (e : ExitError) → Early (as_usize_or_fail_with v e)
  unfolding as_usize_or_fail_with
  Early-as_usize_or_fail_with v e = search (Early-if, Early-stop, Early-pure)

pub ruleset no_trap_rules = (
  Early-pure, Early-stop, Early-gets, Early-if, Early-bind, Early-with_stack, Early-with_memory,
  Early-with_memory_fatal, Early-pop_value, Early-push_value, Early-pop_u256, Early-push_u256,
  Early-as_usize_or_fail, Early-as_usize_or_fail_with, NoTrap-bind, NoTrap-continue, NoTrap-jump,
  NoTrap-exit, NoTrap-stop, NoTrap-if,
)

module _ ⦃U : U256Ops⦄ where
  pub NoTrap-op1 : (op : ℕ → ℕ) → NoTrap (op1_u256_fn op)
  unfolding op1_u256_fn
  NoTrap-op1 op = search no_trap_rules depth 12

  pub NoTrap-op2 : (op : ℕ → ℕ → ℕ) → NoTrap (op2_u256_fn op)
  unfolding op2_u256_fn
  NoTrap-op2 op = search no_trap_rules depth 12

  pub NoTrap-op3 : (op : ℕ → ℕ → ℕ → ℕ) → NoTrap (op3_u256_fn op)
  unfolding op3_u256_fn
  NoTrap-op3 op = search no_trap_rules depth 12
