-- ===== src/Gasometer.antt =====
-- gasometer/: what execution costs, and the record of what was paid.
pub mod Consts
pub mod Memory
pub mod Log2
pub mod Costs
pub mod Cost
pub mod Inner
pub mod Meter
pub mod Static
pub mod Dynamic
