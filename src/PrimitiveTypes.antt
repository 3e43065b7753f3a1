-- ===== src/PrimitiveTypes.antt =====
-- The interface of the third-party crate `primitive-types`, as far as the repository calls it.
-- A `U256` or a `U512` is read as the number that it holds, so that its comparisons, `zero`, `one`
-- and `from` are those of numbers; an `H256` is read as its 32 bytes. The other operations are
-- parameters. Each law states what the crate documents of one operation. An operation that panics
-- outside its contract has a law for the arguments within it, and no law elsewhere.
pub mod Native
pub mod Bits
use sputnikvm.Base.Key.{bytes_eq}
use sputnikvm.Base.{
  ℕ, ◌+◌, ◌-◌, ◌*◌, ◌/◌, ◌%◌, ◌^◌, ◌≤◌, ◌<◌, bit_and, bit_or, bit_xor, min, ◌≡◌, Option, none, some,
  List, [], ◌∷◌, ◌++◌, Bool, true, false, ◌&&◌, ◌==◌, ltb, if◌then◌else◌, length, drop, replicate,
}

-- The number of values of a `U256`, and of a `u64` or a `usize` of a 64-bit target.
abbrev pub u256_mod : ℕ
u256_mod = 2 ^ 256

abbrev pub u64_mod : ℕ
u64_mod = 2 ^ 64

-- `usize::max_value()` and `u64::max_value()`
abbrev pub usize_max : ℕ
usize_max = 2 ^ 64 - 1

abbrev pub H256 : Type 0
H256 = List ℕ

-- An `H160` is its 20 bytes.
abbrev pub H160 : Type 0
H160 = List ℕ

-- `H256::zero()`, which is also `H256::default()`
abbrev pub zero_h256 : H256
zero_h256 = replicate 32 0

-- Equality of `H256` values, byte by byte.
abbrev pub h256_eq : H256 → H256 → Bool
h256_eq = bytes_eq

-- The number that a list of bytes writes, the most significant byte first.
unfoldable pub be_value : ℕ → List ℕ → ℕ
be_value acc [] = acc
be_value acc (b ∷ bs) = be_value (acc * 256 + b) bs

pub record U256Ops : Type 0 where
  pub overflowing_add : ℕ → ℕ → ℕ
  pub overflowing_sub : ℕ → ℕ → ℕ
  pub overflowing_mul : ℕ → ℕ → ℕ
  pub checked_add : ℕ → ℕ → Option ℕ
  pub checked_mul : ℕ → ℕ → Option ℕ
  pub saturating_add : ℕ → ℕ → ℕ
  pub add : ℕ → ℕ → ℕ
  pub sub : ℕ → ℕ → ℕ
  pub mul : ℕ → ℕ → ℕ
  pub div : ℕ → ℕ → ℕ
  pub rem : ℕ → ℕ → ℕ
  pub bitand : ℕ → ℕ → ℕ
  pub bitor : ℕ → ℕ → ℕ
  pub bitxor : ℕ → ℕ → ℕ
  pub complement : ℕ → ℕ
  pub shift_left : ℕ → ℕ → ℕ
  pub shift_right : ℕ → ℕ → ℕ
  pub as_usize : ℕ → ℕ
  pub as_u64 : ℕ → ℕ
  pub low_u32 : ℕ → ℕ
  pub from_big_endian : List ℕ → ℕ
  pub to_big_endian : ℕ → H256
  pub h160_from_h256 : H256 → H160
  pub h256_from_h160 : H160 → H256
  pub add_u512 : ℕ → ℕ → ℕ
  pub mul_u512 : ℕ → ℕ → ℕ
  pub rem_u512 : ℕ → ℕ → ℕ
  pub expect_u256 : ℕ → ℕ
  pub overflowing_add_law : (a b : ℕ) → overflowing_add a b ≡ (a + b) % u256_mod
  pub overflowing_sub_law : (a b : ℕ) → overflowing_sub a b ≡ (a + u256_mod - b) % u256_mod
  pub overflowing_mul_law : (a b : ℕ) → overflowing_mul a b ≡ (a * b) % u256_mod
  pub checked_add_law :
      (a b : ℕ) → checked_add a b ≡ (if ltb (a + b) u256_mod then some (a + b) else none)
  pub checked_mul_law :
      (a b : ℕ) → checked_mul a b ≡ (if ltb (a * b) u256_mod then some (a * b) else none)
  pub saturating_add_law : (a b : ℕ) → saturating_add a b ≡ min (a + b) (u256_mod - 1)
  pub add_law : (a b : ℕ) → a + b < u256_mod → add a b ≡ a + b
  pub sub_law : (a b : ℕ) → b ≤ a → sub a b ≡ a - b
  pub mul_law : (a b : ℕ) → a * b < u256_mod → mul a b ≡ a * b
  pub div_law : (a b : ℕ) → 0 < b → div a b ≡ a / b
  pub rem_law : (a b : ℕ) → 0 < b → rem a b ≡ a % b
  pub bitand_law : (a b : ℕ) → bitand a b ≡ bit_and a b
  pub bitor_law : (a b : ℕ) → bitor a b ≡ bit_or a b
  pub bitxor_law : (a b : ℕ) → bitxor a b ≡ bit_xor a b
  pub complement_law : (a : ℕ) → a < u256_mod → complement a ≡ u256_mod - 1 - a
  pub shift_left_law : (a k : ℕ) → k < 256 → shift_left a k ≡ (a * 2 ^ k) % u256_mod
  pub shift_right_law : (a k : ℕ) → k < 256 → shift_right a k ≡ a / 2 ^ k
  pub as_usize_law : (a : ℕ) → a < u64_mod → as_usize a ≡ a
  pub as_u64_law : (a : ℕ) → a < u64_mod → as_u64 a ≡ a
  pub low_u32_law : (a : ℕ) → low_u32 a ≡ a % 2 ^ 32
  pub from_big_endian_law : (bs : List ℕ) → from_big_endian bs ≡ be_value 0 bs
  pub to_big_endian_law : (a : ℕ) → a < u256_mod → be_value 0 (to_big_endian a) ≡ a
  pub to_big_endian_length : (a : ℕ) → length (to_big_endian a) ≡ 32
  pub h160_from_h256_law : (h : H256) → h160_from_h256 h ≡ drop 12 h
  pub h256_from_h160_law : (h : H160) → h256_from_h160 h ≡ replicate 12 0 ++ h
  pub add_u512_law : (a b : ℕ) → a + b < 2 ^ 512 → add_u512 a b ≡ a + b
  pub mul_u512_law : (a b : ℕ) → a * b < 2 ^ 512 → mul_u512 a b ≡ a * b
  pub rem_u512_law : (a b : ℕ) → 0 < b → rem_u512 a b ≡ a % b
  pub expect_u256_law : (a : ℕ) → a < u256_mod → expect_u256 a ≡ a
