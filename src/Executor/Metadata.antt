-- ===== src/Executor/Metadata.antt =====
-- src/executor/stack/mod.rs: what a substate knows of its gas, its depth and whether it is static.
pub mod Static
use sputnikvm.Base.{ℕ, Bool, false, ◌||◌, Option, none, some, ok, err}
use sputnikvm.Base.Result.{Result}
use sputnikvm.Base.U64.{add_u64}
use sputnikvm.Core.Error.{ExitError}
use sputnikvm.Runtime.Config.{Config}
use sputnikvm.Gasometer.Meter as Gasometer
use sputnikvm.Gasometer.Meter.{Gasometer, Recorded}

pub record StackSubstateMetadata : Type 0 where
  pub gasometer : Gasometer
  pub is_static : Bool
  pub depth : Option ℕ

-- What an operation on the metadata returns, and the metadata after it.
abbrev pub Swallowed : Type 0
Swallowed = Result ExitError (Unit {0}) × StackSubstateMetadata

unfoldable pub new : ℕ → Config → StackSubstateMetadata
new gas_limit config = record {
  gasometer = Gasometer.new gas_limit config;
  is_static = false;
  depth = none;
}

-- A change of the gasometer.
with_gasometer : StackSubstateMetadata → Recorded → Swallowed
with_gasometer m (r, g) = (r, record m { gasometer = g })

-- What `swallow_commit` does after its first `?`.
swallow_refund : StackSubstateMetadata → StackSubstateMetadata → Recorded → Swallowed
unfolding with_gasometer
swallow_refund m other (err e, g) = (err e, record m { gasometer = g })
swallow_refund m other (ok u, g) =
    with_gasometer m (Gasometer.record_refund g (Gasometer.refunded_gas other.gasometer))

unfoldable pub swallow_commit : StackSubstateMetadata → StackSubstateMetadata → Swallowed
unfolding swallow_refund
swallow_commit m other =
    swallow_refund m other (Gasometer.record_stipend m.gasometer (Gasometer.gas other.gasometer))

unfoldable pub swallow_revert : StackSubstateMetadata → StackSubstateMetadata → Swallowed
unfolding with_gasometer
swallow_revert m other =
    with_gasometer m (Gasometer.record_stipend m.gasometer (Gasometer.gas other.gasometer))

unfoldable pub swallow_discard : StackSubstateMetadata → StackSubstateMetadata → Swallowed
swallow_discard m other = (ok tt, m)

deeper : Option ℕ → Option ℕ
deeper none = some 0
deeper (some n) = some (add_u64 n 1)

unfoldable pub spit_child : StackSubstateMetadata → ℕ → Bool → StackSubstateMetadata
unfolding deeper
spit_child m gas_limit is_static = record {
  gasometer = Gasometer.new gas_limit m.gasometer.config;
  is_static = is_static || m.is_static;
  depth = deeper m.depth;
}
