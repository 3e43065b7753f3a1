-- ===== src/Gasometer/Memory.antt =====
-- gasometer/src/memory.rs: the gas of a memory of a number of words.
use native.Mathlib.Nat.{mul-le-mul}
use native.Mathlib.Decide.{dec_lt}
use sputnikvm.Base.{
  ℕ, ◌+◌, ◌-◌, ◌*◌, ◌/◌, ◌^◌, ◌<◌, ◌≤◌, ◌≡◌, ok, err, ok_or, and_then, ltb, if◌then◌else◌, arith,
}
use sputnikvm.Base.Result.{Result}
use sputnikvm.Base.U64.{checked_add_u64, checked_mul_u64}
use sputnikvm.Core.Error.{ExitError, out_of_gas}
use sputnikvm.Gasometer.Consts.{g_memory}

pub memory_gas : ℕ → Result ExitError ℕ
memory_gas a = and_then (ok_or (checked_mul_u64 g_memory a) out_of_gas) λ linear.
    and_then (ok_or (checked_mul_u64 a a) out_of_gas)
      λ square. ok_or (checked_add_u64 linear (square / 512)) out_of_gas

pub square_below : (a : ℕ) → a < 2 ^ 32 → a * a < 2 ^ 64
square_below a h =
    let below : a ≤ 2 ^ 32 - 1 = omega arith in
    let le : a * a ≤ (2 ^ 32 - 1) * (2 ^ 32 - 1) = mul-le-mul below below in omega arith

square_above : (a : ℕ) → 2 ^ 32 ≤ a → 2 ^ 64 ≤ a * a
square_above a h = let le : 2 ^ 32 * 2 ^ 32 ≤ a * a = mul-le-mul h h in omega arith

-- The gas of a memory of `a` words is 3a + a²/512, if there are fewer than 2³² words, and else the gas
-- runs out. The sum fits 64 bits.
pub memory_gas_lem :
    (a : ℕ) → memory_gas a ≡ (if ltb a (2 ^ 32) then ok (3 * a + a * a / 512) else err out_of_gas)
unfolding memory_gas
memory_gas_lem a = elim (dec_lt a (2 ^ 32)) [
  | yes h ↦ ground (arith, square_below a h)
  | no h ↦ ground (arith, square_above a (omega arith))
]
