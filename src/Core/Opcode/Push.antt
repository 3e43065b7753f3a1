-- ===== src/Core/Opcode/Push.antt =====
-- core/src/opcode.rs: PUSH1 to PUSH32
use sputnikvm.Core.Opcode.Byte.{Opcode}

abbrev pub push1 : Opcode
push1 = 0x60

abbrev pub push2 : Opcode
push2 = 0x61

abbrev pub push3 : Opcode
push3 = 0x62

abbrev pub push4 : Opcode
push4 = 0x63

abbrev pub push5 : Opcode
push5 = 0x64

abbrev pub push6 : Opcode
push6 = 0x65

abbrev pub push7 : Opcode
push7 = 0x66

abbrev pub push8 : Opcode
push8 = 0x67

abbrev pub push9 : Opcode
push9 = 0x68

abbrev pub push10 : Opcode
push10 = 0x69

abbrev pub push11 : Opcode
push11 = 0x6a

abbrev pub push12 : Opcode
push12 = 0x6b

abbrev pub push13 : Opcode
push13 = 0x6c

abbrev pub push14 : Opcode
push14 = 0x6d

abbrev pub push15 : Opcode
push15 = 0x6e

abbrev pub push16 : Opcode
push16 = 0x6f

abbrev pub push17 : Opcode
push17 = 0x70

abbrev pub push18 : Opcode
push18 = 0x71

abbrev pub push19 : Opcode
push19 = 0x72

abbrev pub push20 : Opcode
push20 = 0x73

abbrev pub push21 : Opcode
push21 = 0x74

abbrev pub push22 : Opcode
push22 = 0x75

abbrev pub push23 : Opcode
push23 = 0x76

abbrev pub push24 : Opcode
push24 = 0x77

abbrev pub push25 : Opcode
push25 = 0x78

abbrev pub push26 : Opcode
push26 = 0x79

abbrev pub push27 : Opcode
push27 = 0x7a

abbrev pub push28 : Opcode
push28 = 0x7b

abbrev pub push29 : Opcode
push29 = 0x7c

abbrev pub push30 : Opcode
push30 = 0x7d

abbrev pub push31 : Opcode
push31 = 0x7e

abbrev pub push32 : Opcode
push32 = 0x7f
