-- ===== src/Gasometer/Static.antt =====
-- gasometer/src/lib.rs: the opcodes whose cost does not depend on the state.
use sputnikvm.Base.{ℕ, List, [], ◌∷◌, ◌++◌, map, Option, none, some, ◌==◌, if◌then◌else◌}
use sputnikvm.Core.Opcode
use sputnikvm.Core.Opcode.{Opcode}
use sputnikvm.Gasometer.Consts.{g_zero, g_base, g_verylow, g_low, g_mid, g_high, g_jumpdest}

abbrev base_opcodes : List Opcode
base_opcodes =
    Opcode.calldatasize ∷ Opcode.codesize ∷ Opcode.pop ∷ Opcode.pc ∷ Opcode.msize ∷ Opcode.address
    ∷ Opcode.origin ∷ Opcode.caller ∷ Opcode.callvalue ∷ Opcode.coinbase ∷ Opcode.timestamp
    ∷ Opcode.number ∷ Opcode.difficulty ∷ Opcode.gaslimit ∷ Opcode.gasprice ∷ Opcode.gas ∷ []

abbrev word_opcodes : List Opcode
word_opcodes =
    Opcode.add ∷ Opcode.sub ∷ Opcode.not ∷ Opcode.lt ∷ Opcode.gt ∷ Opcode.slt ∷ Opcode.sgt
    ∷ Opcode.eq ∷ Opcode.iszero ∷ Opcode.and ∷ Opcode.or ∷ Opcode.xor ∷ Opcode.byte
    ∷ Opcode.calldataload ∷ []

abbrev push_opcodes : List Opcode
push_opcodes =
    Opcode.push1 ∷ Opcode.push2 ∷ Opcode.push3 ∷ Opcode.push4 ∷ Opcode.push5 ∷ Opcode.push6
    ∷ Opcode.push7 ∷ Opcode.push8 ∷ Opcode.push9 ∷ Opcode.push10 ∷ Opcode.push11 ∷ Opcode.push12
    ∷ Opcode.push13 ∷ Opcode.push14 ∷ Opcode.push15 ∷ Opcode.push16 ∷ Opcode.push17 ∷ Opcode.push18
    ∷ Opcode.push19 ∷ Opcode.push20 ∷ Opcode.push21 ∷ Opcode.push22 ∷ Opcode.push23 ∷ Opcode.push24
    ∷ Opcode.push25 ∷ Opcode.push26 ∷ Opcode.push27 ∷ Opcode.push28 ∷ Opcode.push29 ∷ Opcode.push30
    ∷ Opcode.push31 ∷ Opcode.push32 ∷ []

abbrev dup_opcodes : List Opcode
dup_opcodes =
    Opcode.dup1 ∷ Opcode.dup2 ∷ Opcode.dup3 ∷ Opcode.dup4 ∷ Opcode.dup5 ∷ Opcode.dup6 ∷ Opcode.dup7
    ∷ Opcode.dup8 ∷ Opcode.dup9 ∷ Opcode.dup10 ∷ Opcode.dup11 ∷ Opcode.dup12 ∷ Opcode.dup13
    ∷ Opcode.dup14 ∷ Opcode.dup15 ∷ Opcode.dup16 ∷ []

abbrev swap_opcodes : List Opcode
swap_opcodes =
    Opcode.swap1 ∷ Opcode.swap2 ∷ Opcode.swap3 ∷ Opcode.swap4 ∷ Opcode.swap5 ∷ Opcode.swap6
    ∷ Opcode.swap7 ∷ Opcode.swap8 ∷ Opcode.swap9 ∷ Opcode.swap10 ∷ Opcode.swap11 ∷ Opcode.swap12
    ∷ Opcode.swap13 ∷ Opcode.swap14 ∷ Opcode.swap15 ∷ Opcode.swap16 ∷ []

abbrev low_opcodes : List Opcode
low_opcodes =
    Opcode.mul ∷ Opcode.div ∷ Opcode.sdiv ∷ Opcode.mod_op ∷ Opcode.smod ∷ Opcode.signextend ∷ []

abbrev mid_opcodes : List Opcode
mid_opcodes = Opcode.addmod ∷ Opcode.mulmod ∷ Opcode.jump ∷ []

abbrev pub Prices : Type 0
Prices = List (Opcode × ℕ)

abbrev priced : ℕ → List Opcode → Prices
priced cost opcodes = map (λ opcode. (opcode, cost)) opcodes

-- The entries of the table that are written.
abbrev table : Prices
table =
    (Opcode.stop, g_zero) ∷ priced g_base base_opcodes
    ++ priced g_verylow word_opcodes
    ++ priced g_verylow push_opcodes
    ++ priced g_verylow dup_opcodes
    ++ priced g_verylow swap_opcodes
    ++ priced g_low low_opcodes
    ++ priced g_mid mid_opcodes
    ++ (Opcode.jumpi, g_high) ∷ (Opcode.jumpdest, g_jumpdest) ∷ []

price_in : Prices → Opcode → Option ℕ
price_in [] opcode = none
price_in ((o, cost) ∷ rest) opcode =
    let later = price_in rest opcode in if o == opcode then some cost else later

unfoldable pub static_opcode_cost : Opcode → Option ℕ
unfolding price_in
static_opcode_cost opcode = price_in table opcode
