-- ===== src/Gasometer/Meter/Dynamic.antt =====
-- gasometer/src/lib.rs: what recording the cost of an opcode leaves in the gasometer.
use sputnikvm.Base.{
  ◌≢◌, ℕ, ◌+◌, ◌-◌, ◌^◌, ◌≤◌, ◌<◌, ◌≡◌, Option, none, some, ok, err, ltb, arith, inl, inr,
  Bool-cases,
}
use sputnikvm.Base.Result.{Result, Result-cases}
use sputnikvm.Base.U64.{add_u64, sub_u64, add_i64}
use sputnikvm.PrimitiveTypes.{U256Ops}
use sputnikvm.Core.Error.{ExitError, out_of_gas}
use sputnikvm.Runtime.Config.{Config}
use sputnikvm.Gasometer.Cost.{GasCost, invalid, MemoryCost}
use sputnikvm.Gasometer.Inner
use sputnikvm.Gasometer.Inner.{Inner}
use sputnikvm.Gasometer.Inner.Charge.{charge_bound}
use sputnikvm.Gasometer.Meter.{
  Gasometer, Recorded, gas, failed, or_fail, memory_charge, settle, settled, record_dynamic_cost,
}
use sputnikvm.Gasometer.Meter.Bounds.{running}

module _ ⦃U : U256Ops⦄ (limit : ℕ) (config : Config) (inner : Inner) (cost : GasCost)
    (memory : Option MemoryCost) where
  abbrev stopped : ExitError → Recorded
  stopped e = (err e, record { gas_limit = limit; config = config; inner = err e })

  -- What recording the cost of an opcode comes to: `mg` is the price of all the memory, with the region of
  -- the opcode, `gc` the price of the opcode, out of the gas that is left. The sums are not those of `u64`.
  pub data Settles : Recorded → Type 0 where
    memory_fails : (e : ExitError) → memory_charge inner memory ≡ err e → Settles (stopped e)
    cost_fails :
        (e : ExitError) (mg : ℕ)
        → memory_charge inner memory ≡ ok mg
        → Inner.gas_cost inner cost (limit - (inner.used_gas + inner.memory_gas)) ≡ err e
        → Settles (stopped e)
    over :
        (mg gc : ℕ)
        → memory_charge inner memory ≡ ok mg
        → Inner.gas_cost inner cost (limit - (inner.used_gas + inner.memory_gas)) ≡ ok gc
        → limit < mg + inner.used_gas + gc
        → Settles (stopped out_of_gas)
    check_fails :
        (e : ExitError) (mg gc : ℕ)
        → memory_charge inner memory ≡ ok mg
        → Inner.gas_cost inner cost (limit - (inner.used_gas + inner.memory_gas)) ≡ ok gc
        → mg + inner.used_gas + gc ≤ limit
        → Inner.extra_check inner cost (limit - (mg + inner.used_gas + gc)) ≡ err e
        → Settles (stopped e)
    paid :
        (mg gc : ℕ)
        → memory_charge inner memory ≡ ok mg
        → Inner.gas_cost inner cost (limit - (inner.used_gas + inner.memory_gas)) ≡ ok gc
        → mg + inner.used_gas + gc ≤ limit
        → Inner.extra_check inner cost (limit - (mg + inner.used_gas + gc)) ≡ ok tt
        → Settles (
          ok tt,
          running limit config record inner {
            used_gas = inner.used_gas + gc;
            memory_gas = mg;
            refunded_gas = add_i64 inner.refunded_gas (Inner.gas_refund inner cost);
          },
        )

  module _ (small : limit < 2 ^ 62) (within : inner.used_gas + inner.memory_gas ≤ limit) where
    memory_charge_bound : (mg : ℕ) → memory_charge inner memory ≡ ok mg → mg < 2 ^ 62
    unfolding memory_charge
    memory_charge_bound mg e = by_memory memory e
      where
        by_memory :
            (memory : Option MemoryCost)
            → elim memory [ none ↦ ok inner.memory_gas | some m ↦ Inner.charge inner m ] ≡ ok mg
            → mg < 2 ^ 62
        by_memory none e = ground arith
        by_memory (some m) e = (charge_bound inner m mg (omega arith) e).1

    settle-Settles :
        (mg gc : ℕ)
        → memory_charge inner memory ≡ ok mg
        → Inner.gas_cost inner cost (limit - (inner.used_gas + inner.memory_gas)) ≡ ok gc
        → mg < 2 ^ 62
        → gc < 2 ^ 62
        → Settles (settle (running limit config inner) inner cost mg gc)
    unfolding settle settled failed or_fail
    settle-Settles mg gc em eg hm hg =
        elim (Bool-cases (ltb limit (add_u64 (add_u64 mg inner.used_gas) gc))) [
          | inl past ↦ rw (past, settle) (over mg gc em eg (ground arith))
          | inr fits ↦
              let left : sub_u64 limit (add_u64 (add_u64 mg inner.used_gas) gc)
                  ≡ limit - (mg + inner.used_gas + gc) =
                ground arith in
              let sum : mg + inner.used_gas + gc ≤ limit = ground arith in
              let used : add_u64 inner.used_gas gc ≡ inner.used_gas + gc = ground arith in
              elim (Result-cases
                (Inner.extra_check inner cost (limit - (mg + inner.used_gas + gc)))) [
                  | inl (u, e) ↦ rw (fits, settle, left, e, used) (paid mg gc em eg sum e)
                  | inr (x, e) ↦ rw (fits, settle, left, e) (check_fails x mg gc em eg sum e)
                ]
        ]

    -- For a gasometer that has not failed and has recorded no more than its limit, which is below 2⁶²,
    -- where the price of the opcode is below 2⁶² as well: if the prices of the memory and of the opcode
    -- are found, their sum with the gas that was used is no more than the limit, and the check of what is
    -- then left passes, then the price of the opcode is added to the used gas, that of the memory takes
    -- the place of the old one, and the refund is counted. Otherwise the gasometer fails, with the first
    -- of the errors, which is out of gas where the sum is past the limit. The prices are summed without
    -- wrapping around.
    pub record_dynamic_cost-Settles :
        ((c : ℕ)
          → Inner.gas_cost inner cost (limit - (inner.used_gas + inner.memory_gas)) ≡ ok c
          → c < 2 ^ 62)
        → Settles (record_dynamic_cost (running limit config inner) cost memory)
    unfolding record_dynamic_cost or_fail failed gas
    record_dynamic_cost-Settles cheap =
        let left : sub_u64 (sub_u64 limit inner.used_gas) inner.memory_gas
            ≡ limit - (inner.used_gas + inner.memory_gas) =
          omega arith in
        elim (Result-cases (memory_charge inner memory)) [
          | inr (x, e) ↦ rw (e, record_dynamic_cost) (memory_fails x e)
          | inl (mg, em) ↦
              elim (Result-cases
                (Inner.gas_cost inner cost (limit - (inner.used_gas + inner.memory_gas)))) [
                  | inr (x, e) ↦ rw (em, record_dynamic_cost, left, e) (cost_fails x mg em e)
                  | inl (gc, eg) ↦
                      rw (em, record_dynamic_cost, left, eg)
                        (settle-Settles mg gc em eg (memory_charge_bound mg em) (cheap gc eg))
                ]
        ]

module _ ⦃U : U256Ops⦄ where
  or_fail-err :
      {A : Type 0} (g : Gasometer) (r : Result ExitError A) (k : A → Recorded)
      → ((a : A) → (k a).0 ≢ ok tt)
      → (or_fail g r k).0 ≢ ok tt
  unfolding or_fail failed
  or_fail-err g (ok a) k h = h a
  or_fail-err g (err e) k h = ground arith

  -- The cost of an invalid opcode is never recorded.
  pub record_dynamic_cost-invalid :
      (g : Gasometer) (memory : Option MemoryCost)
      → (record_dynamic_cost g invalid memory).0 ≢ ok tt
  unfolding record_dynamic_cost or_fail failed Inner.gas_cost
  record_dynamic_cost-invalid g memory = elim (Result-cases g.inner) [
    | inl (inner, e) ↦
        rw (e, record_dynamic_cost)
          (or_fail-err g (memory_charge inner memory) _ (λ mg. ground arith))
    | inr (x, e) ↦ rw (e, record_dynamic_cost) (ground arith)
  ]
