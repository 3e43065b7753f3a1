-- ===== src/Executor/Stack/Fee.antt =====
-- src/executor/stack/mod.rs: the gas that a transaction is charged for.
use sputnikvm.Base.{ℕ, ◌-◌, ◌/◌, ◌*◌, ◌^◌, ◌≤◌, ◌<◌, min, ◌≡◌, arith}
use sputnikvm.Base.Int.{ℤ, pos, negsuc}
use sputnikvm.Base.U64.{bits_of_i64}
use sputnikvm.Gasometer.Meter as Gasometer
use sputnikvm.Executor.Stack.{StackExecutor, gasometer, used_gas}

-- An `i64`.
abbrev pub IsI64 : ℤ → Type 0
IsI64 (pos r) = r < 2 ^ 63
IsI64 (negsuc n) = n < 2 ^ 63

-- What is refunded of the gas that was used: no more than half of it, and exactly half where the counter
-- of refunds is negative.
abbrev pub refund : ℕ → ℤ → ℕ
refund used (pos r) = min (used / 2) r
refund used (negsuc n) = used / 2

refund-bits_of_i64 :
    (used : ℕ) (r : ℤ) → used < 2 ^ 64 → IsI64 r → min (used / 2) (bits_of_i64 r) ≡ refund used r
refund-bits_of_i64 used (pos r) h i = omega arith
refund-bits_of_i64 used (negsuc n) h i = omega arith

refund_bound : (used : ℕ) (r : ℤ) → refund used r ≤ used / 2
refund_bound used (pos r) = omega arith
refund_bound used (negsuc n) = omega arith

-- Where the counters fit their types, the gas charged is the gas used less the refund; at least half of
-- the gas used is charged, and no more than all of it. A negative counter of refunds gives half of the gas
-- back.
pub used_gas_lem :
    (e : StackExecutor)
    → Gasometer.total_used_gas (gasometer e) < 2 ^ 64
    → IsI64 (Gasometer.refunded_gas (gasometer e))
    → (used_gas e
        ≡ Gasometer.total_used_gas (gasometer e)
          - refund (Gasometer.total_used_gas (gasometer e)) (Gasometer.refunded_gas (gasometer e)))
      × (used_gas e ≤ Gasometer.total_used_gas (gasometer e))
      × (Gasometer.total_used_gas (gasometer e) ≤ 2 * used_gas e)
unfolding used_gas
used_gas_lem e h i =
    let used = Gasometer.total_used_gas (gasometer e) in
    let r = Gasometer.refunded_gas (gasometer e) in
    rw (refund-bits_of_i64 used r h i) (
      omega (arith, refund_bound used r),
      omega (arith, refund_bound used r),
      omega (arith, refund_bound used r),
    )
