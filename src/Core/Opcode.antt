-- ===== src/Core/Opcode.antt =====
-- core/src/opcode.rs: the opcodes, each a constant under its name in lower case.
pub mod Byte
mod Arithmetic
mod Machine
mod Push
mod DupSwap
mod External
unfoldable pub use Byte.{Opcode, is_push}
pub use Arithmetic.*
pub use Machine.*
pub use Push.*
pub use DupSwap.*
pub use External.*
