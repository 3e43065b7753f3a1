-- ===== src/Core/Opcode/Machine.antt =====
-- core/src/opcode.rs: the opcodes of data, memory, jumps and exits
use sputnikvm.Core.Opcode.Byte.{Opcode}

abbrev pub calldataload : Opcode
calldataload = 0x35

abbrev pub calldatasize : Opcode
calldatasize = 0x36

abbrev pub calldatacopy : Opcode
calldatacopy = 0x37

abbrev pub codesize : Opcode
codesize = 0x38

abbrev pub codecopy : Opcode
codecopy = 0x39

abbrev pub pop : Opcode
pop = 0x50

abbrev pub mload : Opcode
mload = 0x51

abbrev pub mstore : Opcode
mstore = 0x52

abbrev pub mstore8 : Opcode
mstore8 = 0x53

abbrev pub jump : Opcode
jump = 0x56

abbrev pub jumpi : Opcode
jumpi = 0x57

abbrev pub pc : Opcode
pc = 0x58

abbrev pub msize : Opcode
msize = 0x59

abbrev pub jumpdest : Opcode
jumpdest = 0x5b

abbrev pub return : Opcode
return = 0xf3

abbrev pub revert : Opcode
revert = 0xfd

abbrev pub invalid : Opcode
invalid = 0xfe
