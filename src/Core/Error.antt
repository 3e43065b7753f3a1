-- ===== src/Core/Error.antt =====
-- core/src/error.rs: why a machine exits, and what it captures.
use Prim.Native.String.{String}
use sputnikvm.Base.{Bool, true, false, ◌≡◌, refl}

-- `Exit`: the machine has exited. `Trap`: it waits for external information.
pub data Capture (E T : Type 0) : Type 0 where
  exit : E → Capture E T
  trap : T → Capture E T

pub data ExitSucceed : Type 0 where
  stopped returned suicided : ExitSucceed

pub data ExitRevert : Type 0 where
  reverted : ExitRevert

pub data ExitError : Type 0 where
  stack_underflow stack_overflow invalid_jump invalid_range designated_invalid : ExitError
  call_too_deep create_collision create_contract_limit : ExitError
  out_of_offset out_of_gas out_of_fund pc_underflow create_empty : ExitError
  other : String → ExitError

pub data ExitFatal : Type 0 where
  not_supported unhandled_interrupt : ExitFatal
  call_error_as_fatal : ExitError → ExitFatal
  other : String → ExitFatal

pub data ExitReason : Type 0 where
  succeed : ExitSucceed → ExitReason
  error : ExitError → ExitReason
  revert : ExitRevert → ExitReason
  fatal : ExitFatal → ExitReason

pub is_succeed : ExitReason → Bool
is_succeed (succeed s) = true
is_succeed _ = false

pub is_error : ExitReason → Bool
is_error (error e) = true
is_error _ = false

pub is_revert : ExitReason → Bool
is_revert (revert r) = true
is_revert _ = false

pub is_fatal : ExitReason → Bool
is_fatal (fatal f) = true
is_fatal _ = false

pub is_succeed-succeed : (s : ExitSucceed) → is_succeed (succeed s) ≡ true
unfolding is_succeed
is_succeed-succeed s = refl
