-- ===== src/Gasometer/Inner.antt =====
-- gasometer/src/lib.rs: what a gasometer that has not failed holds, and the prices by it.
pub mod Charge
use sputnikvm.Base.{
  ℕ, ◌+◌, ◌/◌, ◌%◌, max, Bool, true, false, not, Option, none, some, ok, err, ok_or, and_then, ltb,
  ◌==◌, if◌then◌else◌,
}
use sputnikvm.Base.Result.{Result}
use sputnikvm.Base.Int.{ℤ, pos}
use sputnikvm.PrimitiveTypes.{U256Ops, usize_max}
use sputnikvm.Core.Error.{ExitError, out_of_gas}
use sputnikvm.Runtime.Config.{Config}
use sputnikvm.Gasometer.Consts.{g_create, g_zero, g_base, g_verylow, g_low, g_blockhash}
use sputnikvm.Gasometer.Memory as Memory
use sputnikvm.Gasometer.Costs
use sputnikvm.Gasometer.Cost.{
  GasCost, zero, base, very_low, low, invalid, ext_code_size, balance, block_hash, ext_code_hash,
  call, call_code, delegate_call, static_call, suicide, s_store, sha3, log, ext_code_copy,
  very_low_copy, exp, create, create2, s_load, MemoryCost,
}

pub record Inner : Type 0 where
  pub memory_gas : ℕ
  pub used_gas : ℕ
  pub refunded_gas : ℤ
  pub config : Config

module _ ⦃U : U256Ops⦄ where
  -- The gas of a memory that covers `end`.
  charge_end : Inner → ℕ → Result ExitError ℕ
  charge_end inner end =
      let new = if end % 32 == 0 then end / 32 else end / 32 + 1 in
      and_then (Memory.memory_gas new) λ gas. ok (max inner.memory_gas gas)

  pub charge : Inner → MemoryCost → Result ExitError ℕ
  unfolding charge_end
  charge inner memory =
      if memory.len == 0
      then ok inner.memory_gas
      else and_then (ok_or (U.checked_add memory.offset memory.len) out_of_gas)
          λ end. if ltb usize_max end then err out_of_gas else charge_end inner (U.as_usize end)

  pub extra_check : Inner → GasCost → ℕ → Result ExitError (Unit {0})
  extra_check inner (call value gas target_exists) after_gas =
      Costs.call_extra_check gas after_gas inner.config
  extra_check inner (call_code value gas target_exists) after_gas =
      Costs.call_extra_check gas after_gas inner.config
  extra_check inner (delegate_call gas target_exists) after_gas =
      Costs.call_extra_check gas after_gas inner.config
  extra_check inner (static_call gas target_exists) after_gas =
      Costs.call_extra_check gas after_gas inner.config
  extra_check inner _ after_gas = ok tt

  unfoldable pub gas_cost : Inner → GasCost → ℕ → Result ExitError ℕ
  gas_cost inner (call value g target_exists) gas =
      ok (Costs.call_cost value true true (not target_exists) inner.config)
  gas_cost inner (call_code value g target_exists) gas =
      ok (Costs.call_cost value true false (not target_exists) inner.config)
  gas_cost inner (delegate_call g target_exists) gas =
      ok (Costs.call_cost 0 false false (not target_exists) inner.config)
  gas_cost inner (static_call g target_exists) gas =
      ok (Costs.call_cost 0 false true (not target_exists) inner.config)
  gas_cost inner (suicide value target_exists removed) gas =
      ok (Costs.suicide_cost value target_exists inner.config)
  gas_cost inner (s_store original current new) gas =
      if inner.config.estimate
      then ok inner.config.gas_sstore_set
      else Costs.sstore_cost original current new gas inner.config
  gas_cost inner (sha3 len) gas = Costs.sha3_cost len
  gas_cost inner (log n len) gas = Costs.log_cost n len
  gas_cost inner (ext_code_copy len) gas = Costs.extcodecopy_cost len inner.config
  gas_cost inner (very_low_copy len) gas = Costs.verylowcopy_cost len
  gas_cost inner (exp power) gas = Costs.exp_cost power inner.config
  gas_cost inner create gas = ok g_create
  gas_cost inner (create2 len) gas = Costs.create2_cost len
  gas_cost inner s_load gas = ok inner.config.gas_sload
  gas_cost inner zero gas = ok g_zero
  gas_cost inner base gas = ok g_base
  gas_cost inner very_low gas = ok g_verylow
  gas_cost inner low gas = ok g_low
  gas_cost inner invalid gas = err out_of_gas
  gas_cost inner ext_code_size gas = ok inner.config.gas_ext_code
  gas_cost inner balance gas = ok inner.config.gas_balance
  gas_cost inner block_hash gas = ok g_blockhash
  gas_cost inner ext_code_hash gas = ok inner.config.gas_ext_code_hash

pub gas_refund : Inner → GasCost → ℤ
gas_refund inner (s_store original current new) =
    if inner.config.estimate then pos 0 else Costs.sstore_refund original current new inner.config
gas_refund inner (suicide value target_exists already_removed) =
    if inner.config.estimate then pos 0 else Costs.suicide_refund already_removed
gas_refund inner _ = pos 0
