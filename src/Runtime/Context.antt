-- ===== src/Runtime/Context.antt =====
-- runtime/src/context.rs, and the transfer of runtime/src/handler.rs.
use sputnikvm.Base.{ℕ, Option, none, some, ◌≡◌, ◌⊎◌}
use sputnikvm.PrimitiveTypes.{H160, H256}

pub data CreateScheme : Type 0 where
  -- The caller.
  legacy : H160 → CreateScheme
  -- The caller, the hash of the code and the salt.
  create2 : H160 → H256 → H256 → CreateScheme
  fixed : H160 → CreateScheme

pub data CallScheme : Type 0 where
  call call_code delegate_call static_call : CallScheme

pub record Context : Type 0 where
  pub address : H160
  pub caller : H160
  pub apparent_value : ℕ

pub record Transfer : Type 0 where
  pub source : H160
  pub target : H160
  pub value : ℕ

-- The transfer leaves every balance as it is, whether it succeeds or not: nothing is transferred, or to its
-- own source.
abbrev pub MovesNothing : Transfer → Type 0
MovesNothing t = (t.value ≡ 0) ⊎ (t.source ≡ t.target)

abbrev pub PaysNothing : Option Transfer → Type 0
PaysNothing none = Unit {0}
PaysNothing (some t) = MovesNothing t
