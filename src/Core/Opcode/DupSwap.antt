-- ===== src/Core/Opcode/DupSwap.antt =====
-- core/src/opcode.rs: DUP1 to DUP16 and SWAP1 to SWAP16
use sputnikvm.Core.Opcode.Byte.{Opcode}

abbrev pub dup1 : Opcode
dup1 = 0x80

abbrev pub dup2 : Opcode
dup2 = 0x81

abbrev pub dup3 : Opcode
dup3 = 0x82

abbrev pub dup4 : Opcode
dup4 = 0x83

abbrev pub dup5 : Opcode
dup5 = 0x84

abbrev pub dup6 : Opcode
dup6 = 0x85

abbrev pub dup7 : Opcode
dup7 = 0x86

abbrev pub dup8 : Opcode
dup8 = 0x87

abbrev pub dup9 : Opcode
dup9 = 0x88

abbrev pub dup10 : Opcode
dup10 = 0x89

abbrev pub dup11 : Opcode
dup11 = 0x8a

abbrev pub dup12 : Opcode
dup12 = 0x8b

abbrev pub dup13 : Opcode
dup13 = 0x8c

abbrev pub dup14 : Opcode
dup14 = 0x8d

abbrev pub dup15 : Opcode
dup15 = 0x8e

abbrev pub dup16 : Opcode
dup16 = 0x8f

abbrev pub swap1 : Opcode
swap1 = 0x90

abbrev pub swap2 : Opcode
swap2 = 0x91

abbrev pub swap3 : Opcode
swap3 = 0x92

abbrev pub swap4 : Opcode
swap4 = 0x93

abbrev pub swap5 : Opcode
swap5 = 0x94

abbrev pub swap6 : Opcode
swap6 = 0x95

abbrev pub swap7 : Opcode
swap7 = 0x96

abbrev pub swap8 : Opcode
swap8 = 0x97

abbrev pub swap9 : Opcode
swap9 = 0x98

abbrev pub swap10 : Opcode
swap10 = 0x99

abbrev pub swap11 : Opcode
swap11 = 0x9a

abbrev pub swap12 : Opcode
swap12 = 0x9b

abbrev pub swap13 : Opcode
swap13 = 0x9c

abbrev pub swap14 : Opcode
swap14 = 0x9d

abbrev pub swap15 : Opcode
swap15 = 0x9e

abbrev pub swap16 : Opcode
swap16 = 0x9f
