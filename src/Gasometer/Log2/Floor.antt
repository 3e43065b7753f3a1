-- ===== src/Gasometer/Log2/Floor.antt =====
-- What `log2floor` computes.
use sputnikvm.Base.{ℕ, zero, suc, ◌+◌, ◌-◌, ◌*◌, ◌/◌, ◌^◌, ◌≤◌, ◌<◌, ◌≡◌, refl, arith, pos→==_zero}
use native.Mathlib.Decide.{dec_lt, ℕ_discrete}
use native.Mathlib.Nat.{
  pow-zero, pow-suc, mul-le-mul_left, mod-eq_of_lt, lt-mul-div-succ, mul-div-le, div-lt_iff_lt-mul,
  one-le-pow,
}
use sputnikvm.Base.Arith.{pow-add}
use sputnikvm.PrimitiveTypes.{u64_mod}
use sputnikvm.Gasometer.Log2.{bit_length, limb, floor_loop, log2floor}

bit_length-zero : (width : ℕ) → bit_length width 0 ≡ 0
unfolding bit_length
bit_length-zero zero = refl
bit_length-zero (suc width) = refl

-- The bits of a number are one more than its logarithm.
bit_length_lem :
    (width x : ℕ)
    → 0 < x
    → x < 2 ^ width
    → (l : ℕ) × (bit_length width x ≡ suc l) × (l < width) × (2 ^ l ≤ x) × (x < 2 ^ suc l)
unfolding bit_length
bit_length_lem zero x p h = absurd (omega (arith, pow-zero 2))
bit_length_lem (suc width) x p h = elim (dec_lt 1 x) [
  | no small ↦
      let one : x ≡ 1 = omega arith in
      (
        0,
        rw one (rw (bit_length-zero width) refl),
        omega arith,
        omega (arith, pow-zero 2),
        rw one (omega arith),
      )
  | yes large ↦
      let (l, e, lt, least, below) =
        bit_length_lem width (x / 2) (omega arith) (omega (arith, pow-suc 2 width)) in
      (
        suc l,
        rw (pos→==_zero x p, e) refl,
        omega arith,
        omega (arith, pow-suc 2 l),
        omega (arith, pow-suc 2 (suc l)),
      )
]

module _ (value i : ℕ) where
  abbrev d : ℕ
  d = 2 ^ (64 * i)

  d_pos : 0 < d
  d_pos = one-le-pow (64 * i) 2 (omega arith)

  d-suc : 2 ^ (64 * suc i) ≡ u64_mod * d
  d-suc = let e : 64 * suc i ≡ 64 + 64 * i = omega arith in rw (e, pow-add 2 64 (64 * i)) refl

  quotient_fits : value < 2 ^ (64 * suc i) → value / d < 2 ^ 64
  quotient_fits h = (div-lt_iff_lt-mul d_pos).1 (rw d-suc at h)

  below_d : value / d ≡ 0 → value < d
  below_d e =
      let small : value / d < 1 = omega arith in
      let under : value < 1 * d = (div-lt_iff_lt-mul d_pos).0 small in omega arith

  limb_lem : value < 2 ^ (64 * suc i) → limb value i ≡ value / d
  limb_lem h = mod-eq_of_lt (quotient_fits h)

  scaled :
      (l : ℕ)
      → 2 ^ l ≤ value / d
      → value / d < 2 ^ suc l
      → (2 ^ (64 * i + l) ≤ value) × (value < 2 ^ suc (64 * i + l))
  scaled l least below =
      let low : d * 2 ^ l ≤ d * (value / d) = mul-le-mul_left d least in
      let high : d * suc (value / d) ≤ d * 2 ^ suc l = mul-le-mul_left d below in
      let one_more : suc (value / d) ≡ value / d + 1 = omega arith in
      let within : value < d * suc (value / d) = rw one_more (lt-mul-div-succ value d_pos) in
      let next : suc (64 * i + l) ≡ 64 * i + suc l = omega arith in
      (
        omega (arith, pow-add 2 (64 * i) l, mul-div-le value d),
        rw next (omega (arith, pow-add 2 (64 * i) (suc l), within)),
      )

-- The loop finds the logarithm of a value that fits the limbs that are left.
floor_loop_lem :
    (value i : ℕ)
    → 0 < value
    → value < 2 ^ (64 * i)
    → (2 ^ floor_loop value i (64 * i) ≤ value) × (value < 2 ^ suc (floor_loop value i (64 * i)))
unfolding floor_loop
floor_loop_lem value zero p h = absurd (omega (arith, pow-zero 2))
floor_loop_lem value (suc i) p h = elim (ℕ_discrete (value / d value i) 0) [
  | yes none ↦
      let step : 64 * suc i - 64 ≡ 64 * i = omega arith in
      rw (limb_lem value i h, none, step) (floor_loop_lem value i p (below_d value i none))
  | no some ↦
      let (l, e, lt, least, below) =
        bit_length_lem 64 (value / d value i) (omega arith) (quotient_fits value i h) in
      let place : 64 * suc i - (64 - suc l) ≡ suc (64 * i + l) = omega arith in
      let minus : suc (64 * i + l) - 1 ≡ 64 * i + l = omega arith in
      rw (limb_lem value i h, pos→==_zero (value / d value i) (omega arith), e, place)
        (rw (pos→==_zero (suc (64 * i + l)) (omega arith), minus) (scaled value i l least below))
]

-- For a value of a U256 that is not 0, `log2floor` is its logarithm to the base 2, rounded down.
pub log2floor_lem :
    (value : ℕ)
    → 0 < value
    → value < 2 ^ 256
    → (2 ^ log2floor value ≤ value) × (value < 2 ^ suc (log2floor value))
unfolding log2floor
log2floor_lem value p h = floor_loop_lem value 4 p h
