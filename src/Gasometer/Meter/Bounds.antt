-- ===== src/Gasometer/Meter/Bounds.antt =====
-- gasometer/src/lib.rs: the gas that was paid, and the limit.
use sputnikvm.Base.{ℕ, ◌+◌, ◌^◌, ◌≤◌, ◌<◌, ◌≡◌, ok, err, ltb, if◌then◌else◌, arith}
use sputnikvm.Base.Result.{Result}
use sputnikvm.Core.Error.{ExitError, out_of_gas}
use sputnikvm.Runtime.Config.{Config}
use sputnikvm.Gasometer.Inner.{Inner}
use sputnikvm.Gasometer.Meter.{
  Gasometer, new, gas, total_used_gas, record_cost, failed, update, add_used,
}

-- What was paid fits the limit, which is a `u64`.
abbrev pub PaidWithin : ℕ → Result ExitError Inner → Type 0
PaidWithin limit (ok inner) = inner.used_gas + inner.memory_gas ≤ limit
PaidWithin limit (err e) = Unit {0}

pub record IsSound (g : Gasometer) : Type 0 where
  pub limit_fits : g.gas_limit < 2 ^ 64
  pub paid : PaidWithin g.gas_limit g.inner

pub new-IsSound : (limit : ℕ) (config : Config) → limit < 2 ^ 64 → IsSound (new limit config)
unfolding new
new-IsSound limit config h = record { limit_fits = h; paid = omega arith }

-- A gasometer that has not failed.
abbrev pub running : ℕ → Config → Inner → Gasometer
running limit config inner = record { gas_limit = limit; config = config; inner = ok inner }

-- In a gasometer that has not failed, with a limit of 64 bits that it keeps to, the gas that is left and
-- the gas that was used make up the limit.
pub gas-total_used_gas :
    (limit : ℕ) (config : Config) (inner : Inner)
    → limit < 2 ^ 64
    → inner.used_gas + inner.memory_gas ≤ limit
    → gas (running limit config inner) + total_used_gas (running limit config inner) ≡ limit
unfolding gas total_used_gas
gas-total_used_gas limit config inner h paid = omega arith

-- In a gasometer that has not failed and has recorded no more than its limit, a cost that does not carry
-- the limit past 64 bits is recorded exactly if it is no more than the gas that is left; otherwise the
-- gasometer fails.
pub record_cost_lem :
    (limit cost : ℕ) (config : Config) (inner : Inner)
    → limit + cost < 2 ^ 64
    → inner.used_gas + inner.memory_gas ≤ limit
    → record_cost (running limit config inner) cost ≡ (
        if ltb (gas (running limit config inner)) cost
        then (err out_of_gas, record (running limit config inner) { inner = err out_of_gas })
        else (ok tt, running limit config (record inner { used_gas = inner.used_gas + cost })))
unfolding record_cost gas total_used_gas failed update add_used
record_cost_lem limit cost config inner h paid = ground arith
