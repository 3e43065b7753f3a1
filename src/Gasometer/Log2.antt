-- ===== src/Gasometer/Log2.antt =====
-- gasometer/src/utils.rs: the logarithm of a word to the base 2, rounded down.
pub mod Floor
use sputnikvm.Base.{ℕ, zero, suc, ◌-◌, ◌*◌, ◌/◌, ◌%◌, ◌^◌, ◌==◌, if◌then◌else◌}
use sputnikvm.PrimitiveTypes.{u64_mod}

-- The bits that a number below 2^`width` needs, by halving it.
pub bit_length : ℕ → ℕ → ℕ
bit_length zero x = 0
bit_length (suc width) x = let rest = bit_length width (x / 2) in if x == 0 then 0 else suc rest

-- `u64::leading_zeros`
abbrev leading_zeros : ℕ → ℕ
leading_zeros x = 64 - bit_length 64 x

-- `value.0[i]`: the limb `i` of a `U256`, the least significant one first.
abbrev limb : ℕ → ℕ → ℕ
limb value i = value / 2 ^ (64 * i) % u64_mod

-- The loop with `left` limbs left, where `l` is 256 less 64 for each limb that was 0.
pub floor_loop : ℕ → ℕ → ℕ → ℕ
floor_loop value zero l = l
floor_loop value (suc i) l =
    let rest = floor_loop value i (l - 64) in
    let l' = l - leading_zeros (limb value i) in
    if limb value i == 0 then rest else if l' == 0 then l' else l' - 1

-- The source asserts that the value is not 0.
pub log2floor : ℕ → ℕ
unfolding floor_loop
log2floor value = floor_loop value 4 256
