-- ===== src/Gasometer/Meter.antt =====
-- gasometer/src/lib.rs: the gasometer. An operation returns its result and the gasometer after it.
pub mod Bounds
pub mod Dynamic
use sputnikvm.Base.{ℕ, ◌+◌, Option, none, some, ok, err, ltb, if◌then◌else◌}
use sputnikvm.Base.Result.{Result}
use sputnikvm.Base.Int.{ℤ, pos}
use sputnikvm.Base.U64.{add_u64, sub_u64, mul_u64, add_i64}
use sputnikvm.PrimitiveTypes.{U256Ops}
use sputnikvm.Core.Error.{ExitError, out_of_gas}
use sputnikvm.Runtime.Config.{Config}
use sputnikvm.Gasometer.Consts.{g_codedeposit}
use sputnikvm.Gasometer.Cost.{GasCost, MemoryCost, TransactionCost}
use sputnikvm.Gasometer.Inner
use sputnikvm.Gasometer.Inner.{Inner}

pub record Gasometer : Type 0 where
  pub gas_limit : ℕ
  pub config : Config
  pub inner : Result ExitError Inner

abbrev pub Recorded : Type 0
Recorded = Result ExitError (Unit {0}) × Gasometer

unfoldable pub new : ℕ → Config → Gasometer
new gas_limit config = record {
  gas_limit = gas_limit;
  config = config;
  inner = ok record { memory_gas = 0; used_gas = 0; refunded_gas = pos 0; config = config };
}

unfoldable pub gas : Gasometer → ℕ
gas g = elim g.inner [
  | ok inner ↦ sub_u64 (sub_u64 g.gas_limit inner.used_gas) inner.memory_gas
  | err e ↦ 0
]

unfoldable pub total_used_gas : Gasometer → ℕ
total_used_gas g = elim g.inner [
  | ok inner ↦ add_u64 inner.used_gas inner.memory_gas
  | err e ↦ g.gas_limit
]

unfoldable pub refunded_gas : Gasometer → ℤ
refunded_gas g = elim g.inner [ ok inner ↦ inner.refunded_gas | err e ↦ pos 0 ]

pub fail : Gasometer → ExitError × Gasometer
fail g = (out_of_gas, record g { inner = err out_of_gas })

-- `self.inner = Err(e.clone()); return Err(e)`
failed : Gasometer → ExitError → Recorded
failed g e = (err e, record g { inner = err e })

-- A change of `self.inner_mut()?`, and what follows it.
update : Gasometer → (Inner → Inner) → Recorded
update g f = elim g.inner [
  | ok inner ↦ (ok tt, record g { inner = ok (f inner) })
  | err e ↦ (err e, g)
]

add_used : ℕ → Inner → Inner
add_used cost inner = record inner { used_gas = add_u64 inner.used_gas cost }

pub record_cost : Gasometer → ℕ → Recorded
unfolding total_used_gas failed update add_used
record_cost g cost =
    if ltb g.gas_limit (add_u64 (total_used_gas g) cost)
    then failed g out_of_gas
    else update g (add_used cost)

unfoldable pub record_refund : Gasometer → ℤ → Recorded
unfolding update
record_refund g refund =
    update g λ inner. record inner { refunded_gas = add_i64 inner.refunded_gas refund }

pub record_deposit : Gasometer → ℕ → Recorded
unfolding record_cost
record_deposit g len = record_cost g (mul_u64 len g_codedeposit)

unfoldable pub record_stipend : Gasometer → ℕ → Recorded
unfolding update
record_stipend g stipend =
    update g λ inner. record inner { used_gas = sub_u64 inner.used_gas stipend }

data_cost : ℕ → ℕ → ℕ → Config → ℕ
data_cost base zeros others config =
    add_u64 (add_u64 base (mul_u64 zeros config.gas_transaction_zero_data))
      (mul_u64 others config.gas_transaction_non_zero_data)

pub transaction_gas : TransactionCost → Config → ℕ
unfolding data_cost
transaction_gas (TransactionCost.call zeros others) config =
    data_cost config.gas_transaction_call zeros others config
transaction_gas (TransactionCost.create zeros others) config =
    data_cost config.gas_transaction_create zeros others config

pub record_transaction : Gasometer → TransactionCost → Recorded
unfolding gas failed update add_used transaction_gas
record_transaction g cost =
    let gas_cost = transaction_gas cost g.config in
    if ltb (gas g) gas_cost then failed g out_of_gas else update g (add_used gas_cost)

-- `try_or_fail!(self.inner, e)` and what follows it.
or_fail : {A : Type 0} → Gasometer → Result ExitError A → (A → Recorded) → Recorded
or_fail g (ok a) k = k a
or_fail g (err e) k = failed g e

settled : Inner → GasCost → ℕ → ℕ → Inner
settled inner cost memory_gas gas_cost = record inner {
  used_gas = add_u64 inner.used_gas gas_cost;
  memory_gas = memory_gas;
  refunded_gas = add_i64 inner.refunded_gas (Inner.gas_refund inner cost);
}

pub record Snapshot : Type 0 where
  pub gas_limit : ℕ
  pub memory_gas : ℕ
  pub used_gas : ℕ
  pub refunded_gas : ℤ

pub snapshot : Gasometer → Result ExitError Snapshot
snapshot g = elim g.inner [
  | err e ↦ err e
  | ok inner ↦ ok record {
    gas_limit = g.gas_limit;
    memory_gas = inner.memory_gas;
    used_gas = inner.used_gas;
    refunded_gas = inner.refunded_gas;
  }
]

module _ ⦃U : U256Ops⦄ where
  pub gas_cost : Gasometer → GasCost → ℕ → Result ExitError ℕ
  gas_cost g cost left = elim g.inner [ ok inner ↦ Inner.gas_cost inner cost left | err e ↦ err e ]

  pub memory_charge : Inner → Option MemoryCost → Result ExitError ℕ
  memory_charge inner none = ok inner.memory_gas
  memory_charge inner (some memory) = Inner.charge inner memory

  -- `record_dynamic_cost` from where both prices are known.
  settle : Gasometer → Inner → GasCost → ℕ → ℕ → Recorded
  unfolding failed or_fail settled
  settle g inner cost memory_gas gas_cost =
      let all_gas_cost = add_u64 (add_u64 memory_gas inner.used_gas) gas_cost in
      if ltb g.gas_limit all_gas_cost
      then failed g out_of_gas
      else or_fail g (Inner.extra_check inner cost (sub_u64 g.gas_limit all_gas_cost))
          λ _. (ok tt, record g { inner = ok (settled inner cost memory_gas gas_cost) })

  pub record_dynamic_cost : Gasometer → GasCost → Option MemoryCost → Recorded
  unfolding gas or_fail memory_charge settle
  record_dynamic_cost g cost memory = elim g.inner [
    | err e ↦ (err e, g)
    | ok inner ↦ or_fail g (memory_charge inner memory) λ memory_gas.
        or_fail g (Inner.gas_cost inner cost (gas g))
          λ gas_cost. settle g inner cost memory_gas gas_cost
  ]
