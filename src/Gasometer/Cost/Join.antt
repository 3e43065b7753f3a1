-- ===== src/Gasometer/Cost/Join.antt =====
-- gasometer/src/lib.rs: where the join of two memory costs ends.
use sputnikvm.Base.{ℕ, ◌+◌, ◌-◌, ◌≡◌, min, max, ◌==◌, if◌then◌else◌, arith}
use sputnikvm.PrimitiveTypes.{U256Ops, u256_mod}
use sputnikvm.Gasometer.Cost.{MemoryCost, join}

-- Where a region ends, cut to a word; an empty region ends at 0.
abbrev pub region_end : MemoryCost → ℕ
region_end c = if c.len == 0 then 0 else min (c.offset + c.len) (u256_mod - 1)

-- The join of two regions ends where the later of them ends, and an empty region does not count.
pub region_end-join :
    ⦃U : U256Ops⦄ (a b : MemoryCost) → region_end (join a b) ≡ max (region_end a) (region_end b)
unfolding join
region_end-join ⦃U = U⦄ a b =
    rw (U.saturating_add_law a.offset a.len, U.saturating_add_law b.offset b.len) (ground arith)
