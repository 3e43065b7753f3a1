-- ===== src/Runtime.antt =====
-- runtime/: its configuration, and what a call or a creation is described by.
pub mod Config
pub mod Context
pub mod Handler
pub mod System
pub mod Trait
pub mod Act
pub mod Laws
pub mod Effects
pub mod Eval
pub mod Step
