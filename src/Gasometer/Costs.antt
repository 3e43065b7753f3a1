-- ===== src/Gasometer/Costs.antt =====
-- gasometer/src/costs.rs: what an opcode costs and refunds.
pub mod Words
use sputnikvm.Base.{
  ℕ, ◌+◌, ◌/◌, Bool, true, false, ◌&&◌, not, ok, err, ok_or, and_then, ltb, ◌==◌, if◌then◌else◌,
}
use sputnikvm.Base.Result.{Result}
use sputnikvm.Base.Int.{ℤ, pos}
use sputnikvm.Base.U64.{add_u64, sub_u64, mul_u64, as_i64, add_i64, sub_i64}
use sputnikvm.PrimitiveTypes.{U256Ops, H256, zero_h256, h256_eq, usize_max}
use sputnikvm.Core.Error.{ExitError, out_of_gas}
use sputnikvm.Runtime.Config.{Config}
use sputnikvm.Gasometer.Consts.{
  r_suicide, g_create, g_callvalue, g_newaccount, g_exp, g_verylow, g_copy, g_log, g_logdata,
  g_logtopic, g_sha3, g_sha3word,
}
use sputnikvm.Gasometer.Log2.{log2floor}

pub call_extra_check : ℕ → ℕ → Config → Result ExitError (Unit {0})
call_extra_check gas after_gas config =
    if config.err_on_call_with_more_gas && ltb after_gas gas then err out_of_gas else ok tt

pub suicide_refund : Bool → ℤ
suicide_refund already_removed = if already_removed then pos 0 else r_suicide

-- What a change of the value adds to the refund, where the slot was not unset before, and what setting
-- a slot back adds.
cleared_refund : H256 → H256 → H256 → Config → ℤ
cleared_refund original current new config =
    if not (h256_eq original zero_h256)
    then if h256_eq current zero_h256
      then sub_i64 (pos 0) config.refund_sstore_clears
      else if h256_eq new zero_h256
      then add_i64 (pos 0) config.refund_sstore_clears
      else pos 0
    else pos 0

restored_refund : H256 → H256 → Config → ℤ → ℤ
restored_refund original new config refund =
    if h256_eq original new
    then if h256_eq original zero_h256
      then add_i64 refund (as_i64 (sub_u64 config.gas_sstore_set config.gas_sload))
      else add_i64 refund (as_i64 (sub_u64 config.gas_sstore_reset config.gas_sload))
    else refund

pub sstore_refund : H256 → H256 → H256 → Config → ℤ
unfolding cleared_refund restored_refund
sstore_refund original current new config =
    if config.sstore_gas_metering
    then if h256_eq current new
      then pos 0
      else if h256_eq original current && h256_eq new zero_h256
      then config.refund_sstore_clears
      else restored_refund original new config (cleared_refund original current new config)
    else if not (h256_eq current zero_h256) && h256_eq new zero_h256
    then config.refund_sstore_clears
    else pos 0

pub sstore_cost : H256 → H256 → H256 → ℕ → Config → Result ExitError ℕ
sstore_cost original current new gas config =
    if config.sstore_gas_metering
    then if config.sstore_revert_under_stipend && ltb gas config.call_stipend
      then err out_of_gas
      else ok (
          if h256_eq new current
          then config.gas_sload
          else if h256_eq original current
          then if h256_eq original zero_h256 then config.gas_sstore_set else config.gas_sstore_reset
          else config.gas_sload)
    else ok (
        if h256_eq current zero_h256 && not (h256_eq new zero_h256)
        then config.gas_sstore_set
        else config.gas_sstore_reset)

pub suicide_cost : ℕ → Bool → Config → ℕ
suicide_cost value target_exists config =
    let eip161 = not config.empty_considered_exists in
    let should_charge_topup =
      if eip161 then not (value == 0) && not target_exists else not target_exists in
    add_u64 config.gas_suicide (if should_charge_topup then config.gas_suicide_new_account else 0)

xfer_cost : Bool → Bool → ℕ
xfer_cost is_call_or_callcode transfers_value =
    if is_call_or_callcode && transfers_value then g_callvalue else 0

new_cost : Bool → Bool → Bool → Config → ℕ
new_cost is_call_or_staticcall new_account transfers_value config =
    let eip161 = not config.empty_considered_exists in
    if is_call_or_staticcall
    then if eip161
      then if transfers_value && new_account then g_newaccount else 0
      else if new_account
      then g_newaccount
      else 0
    else 0

pub call_cost : ℕ → Bool → Bool → Bool → Config → ℕ
unfolding xfer_cost new_cost
call_cost value is_call_or_callcode is_call_or_staticcall new_account config =
    let transfers_value = not (value == 0) in
    add_u64 (add_u64 config.gas_call (xfer_cost is_call_or_callcode transfers_value))
      (new_cost is_call_or_staticcall new_account transfers_value config)

module _ ⦃U : U256Ops⦄ where
  -- How the functions below end: the gas as a `u64`.
  to_gas : ℕ → Result ExitError ℕ
  to_gas gas = if ltb usize_max gas then err out_of_gas else ok (U.as_u64 gas)

  -- The number of words of 32 bytes for `len` bytes.
  words : ℕ → ℕ
  words len = if U.rem len 32 == 0 then U.div len 32 else U.add (U.div len 32) 1

  -- A base price, and a price for each word.
  copy_cost : ℕ → ℕ → ℕ → Result ExitError ℕ
  unfolding to_gas words
  copy_cost base price len =
      and_then (ok_or (U.checked_mul price (words len)) out_of_gas)
        λ per_word. and_then (ok_or (U.checked_add base per_word) out_of_gas) to_gas

  pub create2_cost : ℕ → Result ExitError ℕ
  unfolding to_gas
  create2_cost len =
      let sha_addup_base = U.add (U.div len 32) (if U.rem len 32 == 0 then 0 else 1) in
      and_then (ok_or (U.checked_mul g_sha3word sha_addup_base) out_of_gas)
        λ sha_addup. and_then (ok_or (U.checked_add g_create sha_addup) out_of_gas) to_gas

  pub exp_cost : ℕ → Config → Result ExitError ℕ
  unfolding to_gas
  exp_cost power config =
      if power == 0
      then ok g_exp
      else and_then (ok_or (U.checked_mul config.gas_expbyte (log2floor power / 8 + 1)) out_of_gas)
          λ per_byte. and_then (ok_or (U.checked_add g_exp per_byte) out_of_gas) to_gas

  pub verylowcopy_cost : ℕ → Result ExitError ℕ
  unfolding copy_cost
  verylowcopy_cost len = copy_cost g_verylow g_copy len

  pub extcodecopy_cost : ℕ → Config → Result ExitError ℕ
  unfolding copy_cost
  extcodecopy_cost len config = copy_cost config.gas_ext_code g_copy len

  pub sha3_cost : ℕ → Result ExitError ℕ
  unfolding copy_cost
  sha3_cost len = copy_cost g_sha3 g_sha3word len

  pub log_cost : ℕ → ℕ → Result ExitError ℕ
  unfolding to_gas
  log_cost n len = and_then (ok_or (U.checked_mul g_logdata len) out_of_gas) λ logdata.
      and_then (ok_or (U.checked_add g_log logdata) out_of_gas)
        λ base. and_then (ok_or (U.checked_add base (mul_u64 g_logtopic n)) out_of_gas) to_gas
