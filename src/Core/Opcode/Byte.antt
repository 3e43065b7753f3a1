-- ===== src/Core/Opcode/Byte.antt =====
-- core/src/opcode.rs: an opcode is its byte.
use sputnikvm.Base.{ℕ, ◌+◌, ◌-◌, ◌&&◌, Option, none, some, leb, if◌then◌else◌}

abbrev pub Opcode : Type 0
Opcode = ℕ

-- The number of immediate bytes of a push opcode.
unfoldable pub is_push : Opcode → Option ℕ
is_push value = if leb 0x60 value && leb value 0x7f then some (value - 0x60 + 1) else none
