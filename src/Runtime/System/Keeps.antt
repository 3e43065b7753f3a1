-- ===== src/Runtime/System/Keeps.antt =====
-- runtime/src/eval/system.rs: what these opcodes keep of a machine.
use sputnikvm.Base.{ℕ, ◌≤◌, List}
use sputnikvm.PrimitiveTypes.{U256Ops, H256, usize_max}
use sputnikvm.Core.Memory.Bounds.{resize_offset-Fits, copy_large-Fits}
use sputnikvm.Core.Exec.Keeps.{Keeps}
use sputnikvm.Core.Exec.Macros.{macro_rules}
use sputnikvm.Runtime.Context.{Context}
use sputnikvm.Runtime.Handler.{Handler}
use sputnikvm.Runtime.System.{
  resize, read_region, sha3, chainid, address, balance, selfbalance, origin, caller, callvalue,
  gasprice, extcodesize, extcodehash, extcodecopy, returndatasize, returndatacopy, blockhash,
  coinbase, timestamp, number, difficulty, gaslimit, gas, sload,
}

module _ ⦃U : U256Ops⦄ {code : List ℕ} {sl ml : ℕ} where
  Keeps-resize : (offset len : ℕ) → Keeps code sl ml (resize offset len)
  unfolding resize
  Keeps-resize offset len = search (macro_rules, resize_offset-Fits)

  Keeps-read_region : (from len : ℕ) → Keeps code sl ml (read_region from len)
  unfolding read_region
  Keeps-read_region from len = search macro_rules depth 12

  pub Keeps-sha3 : (keccak256 : List ℕ → H256) → Keeps code sl ml (sha3 keccak256)
  unfolding sha3
  Keeps-sha3 keccak256 = search (macro_rules, Keeps-resize, Keeps-read_region) depth 12

  pub Keeps-chainid : (handler : Handler) → Keeps code sl ml (chainid handler)
  unfolding chainid
  Keeps-chainid handler = search macro_rules depth 12

  pub Keeps-address : (context : Context) → Keeps code sl ml (address context)
  unfolding address
  Keeps-address context = search macro_rules depth 12

  pub Keeps-balance : (handler : Handler) → Keeps code sl ml (balance handler)
  unfolding balance
  Keeps-balance handler = search macro_rules depth 12

  pub Keeps-selfbalance :
      (context : Context) (handler : Handler) → Keeps code sl ml (selfbalance context handler)
  unfolding selfbalance
  Keeps-selfbalance context handler = search macro_rules depth 12

  pub Keeps-origin : (handler : Handler) → Keeps code sl ml (origin handler)
  unfolding origin
  Keeps-origin handler = search macro_rules depth 12

  pub Keeps-caller : (context : Context) → Keeps code sl ml (caller context)
  unfolding caller
  Keeps-caller context = search macro_rules depth 12

  pub Keeps-callvalue : (context : Context) → Keeps code sl ml (callvalue context)
  unfolding callvalue
  Keeps-callvalue context = search macro_rules depth 12

  pub Keeps-gasprice : (handler : Handler) → Keeps code sl ml (gasprice handler)
  unfolding gasprice
  Keeps-gasprice handler = search macro_rules depth 12

  pub Keeps-extcodesize : (handler : Handler) → Keeps code sl ml (extcodesize handler)
  unfolding extcodesize
  Keeps-extcodesize handler = search macro_rules depth 12

  pub Keeps-extcodehash : (handler : Handler) → Keeps code sl ml (extcodehash handler)
  unfolding extcodehash
  Keeps-extcodehash handler = search macro_rules depth 12

  pub Keeps-returndatasize : (bytes : List ℕ) → Keeps code sl ml (returndatasize bytes)
  unfolding returndatasize
  Keeps-returndatasize bytes = search macro_rules depth 12

  pub Keeps-blockhash : (handler : Handler) → Keeps code sl ml (blockhash handler)
  unfolding blockhash
  Keeps-blockhash handler = search macro_rules depth 12

  pub Keeps-coinbase : (handler : Handler) → Keeps code sl ml (coinbase handler)
  unfolding coinbase
  Keeps-coinbase handler = search macro_rules depth 12

  pub Keeps-timestamp : (handler : Handler) → Keeps code sl ml (timestamp handler)
  unfolding timestamp
  Keeps-timestamp handler = search macro_rules depth 12

  pub Keeps-number : (handler : Handler) → Keeps code sl ml (number handler)
  unfolding number
  Keeps-number handler = search macro_rules depth 12

  pub Keeps-difficulty : (handler : Handler) → Keeps code sl ml (difficulty handler)
  unfolding difficulty
  Keeps-difficulty handler = search macro_rules depth 12

  pub Keeps-gaslimit : (handler : Handler) → Keeps code sl ml (gaslimit handler)
  unfolding gaslimit
  Keeps-gaslimit handler = search macro_rules depth 12

  pub Keeps-gas : (handler : Handler) → Keeps code sl ml (gas handler)
  unfolding gas
  Keeps-gas handler = search macro_rules depth 12

  module _ (small : ml ≤ usize_max) where
    pub Keeps-extcodecopy : (handler : Handler) → Keeps code sl ml (extcodecopy handler)
    unfolding extcodecopy
    Keeps-extcodecopy handler = search (macro_rules, Keeps-resize, copy_large-Fits) depth 12

    pub Keeps-returndatacopy : (bytes : List ℕ) → Keeps code sl ml (returndatacopy bytes)
    unfolding returndatacopy
    Keeps-returndatacopy bytes = search (macro_rules, Keeps-resize, copy_large-Fits) depth 12

pub Keeps-sload :
    {code : List ℕ} {sl ml : ℕ} (context : Context) (handler : Handler)
    → Keeps code sl ml (sload context handler)
unfolding sload
Keeps-sload context handler = search macro_rules depth 12
