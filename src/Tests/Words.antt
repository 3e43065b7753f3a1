-- ===== src/Tests/Words.antt =====
-- core/src/eval/arithmetic.rs, core/src/eval/bitwise.rs and core/src/utils.rs on concrete words.
use sputnikvm.Base.{ℕ, ◌-◌, ◌^◌, ◌≡◌, arith}
use sputnikvm.Base.Int.{quotient, remainder, floor_div}
use sputnikvm.PrimitiveTypes.Native.{native_ops}
use sputnikvm.Core.Utils.Signed.{signed, word, into-from}
use sputnikvm.Core.Utils.{from, into}
use sputnikvm.Core.Arithmetic.{sdiv, srem, addmod, mulmod, exp}
use sputnikvm.Core.Arithmetic.Signed.{signed_division_lem}
use sputnikvm.Core.Arithmetic.Modular.{modular_lem}
use sputnikvm.Core.Arithmetic.Power.{exp_lem}
use sputnikvm.Core.Bitwise.{slt, sgt, byte, shl, shr, sar}
use sputnikvm.Core.Bitwise.Order.{signed_order_lem}
use sputnikvm.Core.Bitwise.Shifts.{shifts_lem}
use sputnikvm.Core.Bitwise.Bytes.{byte_lem}

-- The words of -1, -7 and the least integer.
abbrev minus_one : ℕ
minus_one = 2 ^ 256 - 1

abbrev minus_seven : ℕ
minus_seven = 2 ^ 256 - 7

abbrev least : ℕ
least = 2 ^ 255

into-from_example : into (from minus_seven) ≡ minus_seven
into-from_example = into-from minus_seven (omega arith)

exp_lem_example : exp 2 300 ≡ 0
exp_lem_example = exp_lem 2 300 (omega arith)

byte_lem_example : byte 30 0x1234 ≡ 0x12
byte_lem_example = byte_lem 30 0x1234 (omega arith)

signed_division_lem_example :
    (sdiv least minus_one ≡ word (quotient (signed least) (signed minus_one)))
    × (srem least minus_one ≡ word (remainder (signed least) (signed minus_one)))
signed_division_lem_example = signed_division_lem least minus_one (omega arith) (omega arith)

modular_lem_example : (addmod minus_one 5 7 ≡ 6) × (mulmod minus_one 5 7 ≡ 5)
modular_lem_example = modular_lem minus_one 5 7 (omega arith) (omega arith) (omega arith)

signed_order_lem_example : (slt minus_one 1 ≡ 1) × (sgt minus_one 1 ≡ 0)
signed_order_lem_example = signed_order_lem minus_one 1 (omega arith) (omega arith)

shifts_lem_example :
    (shl 1 minus_seven ≡ 2 ^ 256 - 14)
    × (shr 1 minus_seven ≡ 2 ^ 255 - 4)
    × (sar 1 minus_seven ≡ word (floor_div (signed minus_seven) (2 ^ 1)))
shifts_lem_example = shifts_lem 1 minus_seven (omega arith)
