-- ===== src/Executor/Metadata/Static.antt =====
-- src/executor/stack/mod.rs: no exit of a child changes whether its parent is static.
use sputnikvm.Base.{ok, err, ◌≡◌, refl}
use sputnikvm.Gasometer.Meter as Gasometer
use sputnikvm.Executor.Metadata.{
  StackSubstateMetadata, swallow_refund, with_gasometer, swallow_commit, swallow_revert,
  swallow_discard,
}

swallow_refund-is_static :
    (m other : StackSubstateMetadata) (r : Gasometer.Recorded)
    → (swallow_refund m other r).1.is_static ≡ m.is_static
unfolding swallow_refund with_gasometer
swallow_refund-is_static m other (ok u, g) = refl
swallow_refund-is_static m other (err x, g) = refl

pub swallow_commit-is_static :
    (m other : StackSubstateMetadata) → (swallow_commit m other).1.is_static ≡ m.is_static
unfolding swallow_commit
swallow_commit-is_static m other = swallow_refund-is_static m other _

pub swallow_revert-is_static :
    (m other : StackSubstateMetadata) → (swallow_revert m other).1.is_static ≡ m.is_static
unfolding swallow_revert with_gasometer
swallow_revert-is_static m other = refl

pub swallow_discard-is_static :
    (m other : StackSubstateMetadata) → (swallow_discard m other).1.is_static ≡ m.is_static
unfolding swallow_discard
swallow_discard-is_static m other = refl
