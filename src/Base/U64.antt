-- ===== src/Base/U64.antt =====
-- Arithmetic on `u64` and `i64`, which wraps around as a release build does.
use Prim.Native.Nat.{ℕ, ◌+◌, ◌-◌, ◌*◌, ◌%◌, ◌^◌}
use mathlib.Core.Option.{Option, none, some}
use sputnikvm.Base.Tests.{ltb, if◌then◌else◌}
use sputnikvm.Base.Int.{ℤ, pos, negsuc}

abbrev pub add_u64 : ℕ → ℕ → ℕ
add_u64 a b = (a + b) % 2 ^ 64

abbrev pub sub_u64 : ℕ → ℕ → ℕ
sub_u64 a b = (a + 2 ^ 64 - b) % 2 ^ 64

abbrev pub mul_u64 : ℕ → ℕ → ℕ
mul_u64 a b = (a * b) % 2 ^ 64

abbrev pub checked_add_u64 : ℕ → ℕ → Option ℕ
checked_add_u64 a b = if ltb (a + b) (2 ^ 64) then some (a + b) else none

abbrev pub checked_mul_u64 : ℕ → ℕ → Option ℕ
checked_mul_u64 a b = if ltb (a * b) (2 ^ 64) then some (a * b) else none

-- The 64 bits of an `i64`, and the `i64` of 64 bits: the cast `as i64` of a `u64`.
abbrev pub bits_of_i64 : ℤ → ℕ
bits_of_i64 (pos n) = n % 2 ^ 64
bits_of_i64 (negsuc n) = 2 ^ 64 - 1 - n % 2 ^ 64

abbrev pub as_i64 : ℕ → ℤ
as_i64 n = if ltb n (2 ^ 63) then pos n else negsuc (2 ^ 64 - 1 - n)

abbrev pub add_i64 : ℤ → ℤ → ℤ
add_i64 a b = as_i64 (add_u64 (bits_of_i64 a) (bits_of_i64 b))

abbrev pub sub_i64 : ℤ → ℤ → ℤ
sub_i64 a b = as_i64 (sub_u64 (bits_of_i64 a) (bits_of_i64 b))
