-- ===== src/Core/Opcode/External.antt =====
-- core/src/opcode.rs: the opcodes that a machine leaves to its environment
use sputnikvm.Core.Opcode.Byte.{Opcode}

abbrev pub sha3 : Opcode
sha3 = 0x20

abbrev pub address : Opcode
address = 0x30

abbrev pub balance : Opcode
balance = 0x31

abbrev pub selfbalance : Opcode
selfbalance = 0x47

abbrev pub origin : Opcode
origin = 0x32

abbrev pub caller : Opcode
caller = 0x33

abbrev pub callvalue : Opcode
callvalue = 0x34

abbrev pub gasprice : Opcode
gasprice = 0x3a

abbrev pub extcodesize : Opcode
extcodesize = 0x3b

abbrev pub extcodecopy : Opcode
extcodecopy = 0x3c

abbrev pub extcodehash : Opcode
extcodehash = 0x3f

abbrev pub returndatasize : Opcode
returndatasize = 0x3d

abbrev pub returndatacopy : Opcode
returndatacopy = 0x3e

abbrev pub blockhash : Opcode
blockhash = 0x40

abbrev pub coinbase : Opcode
coinbase = 0x41

abbrev pub timestamp : Opcode
timestamp = 0x42

abbrev pub number : Opcode
number = 0x43

abbrev pub difficulty : Opcode
difficulty = 0x44

abbrev pub gaslimit : Opcode
gaslimit = 0x45

abbrev pub sload : Opcode
sload = 0x54

abbrev pub sstore : Opcode
sstore = 0x55

abbrev pub gas : Opcode
gas = 0x5a

abbrev pub log0 : Opcode
log0 = 0xa0

abbrev pub log1 : Opcode
log1 = 0xa1

abbrev pub log2 : Opcode
log2 = 0xa2

abbrev pub log3 : Opcode
log3 = 0xa3

abbrev pub log4 : Opcode
log4 = 0xa4

abbrev pub create : Opcode
create = 0xf0

abbrev pub create2 : Opcode
create2 = 0xf5

abbrev pub call : Opcode
call = 0xf1

abbrev pub callcode : Opcode
callcode = 0xf2

abbrev pub delegatecall : Opcode
delegatecall = 0xf4

abbrev pub staticcall : Opcode
staticcall = 0xfa

abbrev pub suicide : Opcode
suicide = 0xff

abbrev pub chainid : Opcode
chainid = 0x46
