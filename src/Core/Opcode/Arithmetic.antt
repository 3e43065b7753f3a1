-- ===== src/Core/Opcode/Arithmetic.antt =====
-- core/src/opcode.rs: the opcodes of arithmetic, comparison and bits. MOD is called `mod_op`.
use sputnikvm.Core.Opcode.Byte.{Opcode}

abbrev pub stop : Opcode
stop = 0x00

abbrev pub add : Opcode
add = 0x01

abbrev pub mul : Opcode
mul = 0x02

abbrev pub sub : Opcode
sub = 0x03

abbrev pub div : Opcode
div = 0x04

abbrev pub sdiv : Opcode
sdiv = 0x05

abbrev pub mod_op : Opcode
mod_op = 0x06

abbrev pub smod : Opcode
smod = 0x07

abbrev pub addmod : Opcode
addmod = 0x08

abbrev pub mulmod : Opcode
mulmod = 0x09

abbrev pub exp : Opcode
exp = 0x0a

abbrev pub signextend : Opcode
signextend = 0x0b

abbrev pub lt : Opcode
lt = 0x10

abbrev pub gt : Opcode
gt = 0x11

abbrev pub slt : Opcode
slt = 0x12

abbrev pub sgt : Opcode
sgt = 0x13

abbrev pub eq : Opcode
eq = 0x14

abbrev pub iszero : Opcode
iszero = 0x15

abbrev pub and : Opcode
and = 0x16

abbrev pub or : Opcode
or = 0x17

abbrev pub xor : Opcode
xor = 0x18

abbrev pub not : Opcode
not = 0x19

abbrev pub byte : Opcode
byte = 0x1a

abbrev pub shl : Opcode
shl = 0x1b

abbrev pub shr : Opcode
shr = 0x1c

abbrev pub sar : Opcode
sar = 0x1d
