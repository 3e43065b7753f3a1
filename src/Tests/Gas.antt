-- ===== src/Tests/Gas.antt =====
-- gasometer/ on concrete costs.
use sputnikvm.Base.{
  ℕ, suc, ◌≤◌, ◌+◌, ◌-◌, ◌^◌, ◌<◌, ◌≡◌, sym, ◌∙◌, ltb, if◌then◌else◌, ok, err, some, arith,
}
use sputnikvm.Base.Int.{pos}
use sputnikvm.PrimitiveTypes.Native.{native_ops}
use sputnikvm.Core.Error.{out_of_gas}
use sputnikvm.Runtime.Config.{istanbul}
use sputnikvm.Gasometer.Log2.{log2floor}
use sputnikvm.Gasometer.Log2.Floor.{log2floor_lem}
use sputnikvm.Gasometer.Costs.{sha3_cost, create2_cost, extcodecopy_cost, verylowcopy_cost}
use sputnikvm.Gasometer.Costs.Words.{word_costs_lem, sha3_cost_lem}
use sputnikvm.Gasometer.Cost.{GasCost, MemoryCost, join}
use sputnikvm.Gasometer.Cost.Join.{region_end, region_end-join}
use sputnikvm.Gasometer.Inner
use sputnikvm.Gasometer.Inner.{Inner, charge}
use sputnikvm.Gasometer.Inner.Charge.{charge_lem}
use sputnikvm.Gasometer.Meter.{Gasometer, gas, record_cost, record_dynamic_cost}
use sputnikvm.Gasometer.Meter.Bounds.{running, record_cost_lem}
use sputnikvm.Gasometer.Meter.Dynamic.{Settles, record_dynamic_cost-Settles}

abbrev region_a : MemoryCost
region_a = record { offset = 10; len = 5 }

abbrev region_b : MemoryCost
region_b = record { offset = 4; len = 40 }

region_end-join_example : region_end (join region_a region_b) ≡ 44
region_end-join_example = region_end-join region_a region_b

-- A gasometer that has used 100 of 1000, and 6 for memory.
abbrev spent : Inner
spent = record { memory_gas = 6; used_gas = 100; refunded_gas = pos 0; config = istanbul }

charge_lem_example : charge spent region_b ≡ ok 6
charge_lem_example = charge_lem spent region_b

abbrev meter : Gasometer
meter = running 1000 istanbul spent

record_cost_lem_example : record_cost meter 895 ≡ (
    if ltb (gas meter) 895
    then (err out_of_gas, record meter { inner = err out_of_gas })
    else (ok tt, running 1000 istanbul (record spent { used_gas = 995 })))
record_cost_lem_example = record_cost_lem 1000 895 istanbul spent (omega arith) (omega arith)

cheap :
    (c : ℕ)
    → Inner.gas_cost spent (GasCost.sha3 40) (1000 - (spent.used_gas + spent.memory_gas)) ≡ ok c
    → c < 2 ^ 62
unfolding Inner.gas_cost
cheap c e =
    let same : ok 42 ≡ ok c = sym (sha3_cost_lem 40 (omega arith)) ∙ e in
    let price : 42 ≡ c = cc in omega arith

record_dynamic_cost-Settles_example :
    Settles 1000 istanbul spent
      (GasCost.sha3 40)
      (some region_b)
      (record_dynamic_cost meter (GasCost.sha3 40) (some region_b))
record_dynamic_cost-Settles_example =
    record_dynamic_cost-Settles 1000 istanbul spent (GasCost.sha3 40) (some region_b) (omega arith)
      (omega arith) cheap

log2floor_lem_example :
    (2 ^ log2floor (2 ^ 70 + 5) ≤ 2 ^ 70 + 5) × (2 ^ 70 + 5 < 2 ^ suc (log2floor (2 ^ 70 + 5)))
log2floor_lem_example = log2floor_lem (2 ^ 70 + 5) (omega arith) (omega arith)

word_costs_lem_example :
    (sha3_cost 33 ≡ ok 42)
    × (verylowcopy_cost 33 ≡ ok 9)
    × (extcodecopy_cost 33 istanbul ≡ ok 706)
    × (create2_cost 33 ≡ ok 32012)
word_costs_lem_example = word_costs_lem 33 istanbul (omega arith)
