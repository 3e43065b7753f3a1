-- ===== src/PrimitiveTypes/Native.antt =====
-- A value of the interface: the operations on numbers that its laws describe.
use sputnikvm.Base.{
  ℕ, zero, suc, ◌+◌, ◌-◌, ◌*◌, ◌/◌, ◌%◌, ◌^◌, ◌<◌, bit_and, bit_or, bit_xor, min, ◌≡◌, refl, none,
  some, List, [], ◌∷◌, ◌++◌, ltb, if◌then◌else◌, length, length-append, drop, replicate, arith,
}
use sputnikvm.PrimitiveTypes.{u256_mod, be_value, U256Ops}
use native.Mathlib.Nat.{pow-suc, pow-zero}

-- The `n` lowest digits of `a` to the base 256, the most significant first.
pub digits : ℕ → ℕ → List ℕ
digits zero a = []
digits (suc n) a = digits n (a / 256) ++ (a % 256 ∷ [])

pub length-digits : (n a : ℕ) → length (digits n a) ≡ n
unfolding digits
length-digits zero a = refl
length-digits (suc n) a =
    omega (arith, length-append (digits n (a / 256)) (a % 256 ∷ []), length-digits n (a / 256))

be_value-append :
    (acc b : ℕ) (bs : List ℕ) → be_value acc (bs ++ (b ∷ [])) ≡ be_value acc bs * 256 + b
unfolding be_value
be_value-append acc b [] = refl
be_value-append acc b (c ∷ bs) = be_value-append (acc * 256 + c) b bs

pub be_value-digits : (n a : ℕ) → a < 256 ^ n → be_value 0 (digits n a) ≡ a
unfolding digits
be_value-digits zero a h = unfold be_value in ground (arith, pow-zero 256)
be_value-digits (suc n) a h = omega (
  arith,
  be_value-append 0 (a % 256) (digits n (a / 256)),
  be_value-digits n (a / 256) (omega (arith, pow-suc 256 n)),
)

instance abbrev pub native_ops : U256Ops
native_ops = record {
  overflowing_add = λ a b. (a + b) % u256_mod;
  overflowing_sub = λ a b. (a + u256_mod - b) % u256_mod;
  overflowing_mul = λ a b. (a * b) % u256_mod;
  checked_add = λ a b. if ltb (a + b) u256_mod then some (a + b) else none;
  checked_mul = λ a b. if ltb (a * b) u256_mod then some (a * b) else none;
  saturating_add = λ a b. min (a + b) (u256_mod - 1);
  add = λ a b. a + b;
  sub = λ a b. a - b;
  mul = λ a b. a * b;
  div = λ a b. a / b;
  rem = λ a b. a % b;
  bitand = bit_and;
  bitor = bit_or;
  bitxor = bit_xor;
  complement = λ a. u256_mod - 1 - a;
  shift_left = λ a k. (a * 2 ^ k) % u256_mod;
  shift_right = λ a k. a / 2 ^ k;
  as_usize = λ a. a;
  as_u64 = λ a. a;
  low_u32 = λ a. a % 2 ^ 32;
  from_big_endian = be_value 0;
  to_big_endian = digits 32;
  h160_from_h256 = drop 12;
  h256_from_h160 = λ h. replicate 12 0 ++ h;
  add_u512 = λ a b. a + b;
  mul_u512 = λ a b. a * b;
  rem_u512 = λ a b. a % b;
  expect_u256 = λ a. a;
  overflowing_add_law = λ a b. refl;
  overflowing_sub_law = λ a b. refl;
  overflowing_mul_law = λ a b. refl;
  checked_add_law = λ a b. refl;
  checked_mul_law = λ a b. refl;
  saturating_add_law = λ a b. refl;
  add_law = λ a b h. refl;
  sub_law = λ a b h. refl;
  mul_law = λ a b h. refl;
  div_law = λ a b h. refl;
  rem_law = λ a b h. refl;
  bitand_law = λ a b. refl;
  bitor_law = λ a b. refl;
  bitxor_law = λ a b. refl;
  complement_law = λ a h. refl;
  shift_left_law = λ a k h. refl;
  shift_right_law = λ a k h. refl;
  as_usize_law = λ a h. refl;
  as_u64_law = λ a h. refl;
  low_u32_law = λ a. refl;
  from_big_endian_law = λ bs. refl;
  to_big_endian_law = be_value-digits 32;
  to_big_endian_length = length-digits 32;
  h160_from_h256_law = λ h. refl;
  h256_from_h160_law = λ h. refl;
  add_u512_law = λ a b h. refl;
  mul_u512_law = λ a b h. refl;
  rem_u512_law = λ a b h. refl;
  expect_u256_law = λ a h. refl;
}
