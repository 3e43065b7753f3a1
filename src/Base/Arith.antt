-- ===== src/Base/Arith.antt =====
-- Laws of powers and of remainders that the libraries lack.
use Prim.Native.Nat.{ℕ, zero, suc, ◌+◌, ◌*◌, ◌/◌, ◌%◌, ◌^◌}
use mathlib.Core.Path.{◌≡◌, refl, sym, ap, ◌∙◌}
use native.Mathlib.Nat.{
  pow-zero, pow-suc, add-zero, add-suc, mul-one, mul_comm, mod-add-div', add-mul-mod_self_right,
}
use native.Mathlib.Omega.{arith}

pub pow_square : (a k : ℕ) → (a * a) ^ k ≡ a ^ k * a ^ k
pow_square a zero = rw (pow-zero, pow-zero) refl
pow_square a (suc k) = omega (
  arith,
  pow-suc (a * a) k,
  pow-suc a k,
  ap (λ (t : ℕ). t * (a * a)) (pow_square a k),
  ap (λ (t : ℕ). t * t) (pow-suc a k),
)

pub pow-add : (a m n : ℕ) → a ^ (m + n) ≡ a ^ m * a ^ n
pow-add a m zero = rw (add-zero, pow-zero, mul-one)
pow-add a m (suc n) =
    rw (add-suc, pow-suc, pow-suc) (omega (arith, ap (λ (t : ℕ). t * a) (pow-add a m n)))

pub mod-mul_left : (a b m : ℕ) → (a % m * b) % m ≡ (a * b) % m
mod-mul_left a b m =
    sym (add-mul-mod_self_right (a % m * b) (a / m * b) m)
    ∙ ap (λ (t : ℕ). t % m) (omega (arith, ap (λ (t : ℕ). t * b) (mod-add-div' a m)))

pub mod-mul_right : (a b m : ℕ) → (a * (b % m)) % m ≡ (a * b) % m
mod-mul_right a b m = rw (mul_comm a (b % m), mul_comm a b) (mod-mul_left b a m)

pub mod-pow : (a n m : ℕ) → ((a % m) ^ n) % m ≡ (a ^ n) % m
mod-pow a zero m = rw (pow-zero, pow-zero)
mod-pow a (suc n) m =
    rw (pow-suc, pow-suc)
      (mod-mul_right ((a % m) ^ n) a m
        ∙ sym (mod-mul_left ((a % m) ^ n) a m)
        ∙ ap (λ (t : ℕ). t * a % m) (mod-pow a n m)
        ∙ mod-mul_left (a ^ n) a m)
