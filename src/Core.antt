-- ===== src/Core.antt =====
-- core/: the execution layer of the EVM.
pub mod Error
pub mod Opcode
pub mod Stack
pub mod Memory
pub mod Valids
pub mod Utils
pub mod Arithmetic
pub mod Bitwise
pub mod Machine
pub mod Exec
pub mod Misc
pub mod Eval
pub mod Step
