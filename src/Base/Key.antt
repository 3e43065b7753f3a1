-- ===== src/Base/Key.antt =====
-- The keys of ordered maps: an interface, with the lists of bytes and the pairs as instances.
use Prim.Native.Nat.{ℕ}
use mathlib.Core.Path.{◌≡◌, refl}
use mathlib.Core.Logic.{◌↔◌}
use mathlib.Core.Bool.{Bool, true, false, ◌&&◌, ◌||◌}
use mathlib.Core.List.{List, [], ◌∷◌}
use native.Mathlib.Omega.{arith}
use sputnikvm.Base.Tests.{ltb, ◌==◌}

-- `Eq` and `Ord`, as far as a `BTreeMap` uses them.
pub record Key {ℓ} (K : Type ℓ) : Type ℓ where
  pub beq : K → K → Bool
  pub before : K → K → Bool
  pub beq_iff : (a b : K) → (beq a b ≡ true) ↔ (a ≡ b)
  pub before_irrefl : (a : K) → before a a ≡ false
  pub before_trans : (a b c : K) → before a b ≡ true → before b c ≡ true → before a c ≡ true
  pub before_total : (a b : K) → before a b ≡ false → beq a b ≡ false → before b a ≡ true

-- Bytes are compared in order, the first one first.
abbrev pub bytes_eq : List ℕ → List ℕ → Bool
bytes_eq [] [] = true
bytes_eq [] (y ∷ ys) = false
bytes_eq (x ∷ xs) [] = false
bytes_eq (x ∷ xs) (y ∷ ys) = (x == y) && bytes_eq xs ys

abbrev pub bytes_before : List ℕ → List ℕ → Bool
bytes_before [] [] = false
bytes_before [] (y ∷ ys) = true
bytes_before (x ∷ xs) [] = false
bytes_before (x ∷ xs) (y ∷ ys) = ltb x y || ((x == y) && bytes_before xs ys)

pub bytes_eq_iff : (a b : List ℕ) → (bytes_eq a b ≡ true) ↔ (a ≡ b)
bytes_eq_iff [] [] = ground arith
bytes_eq_iff [] (y ∷ ys) = ground arith
bytes_eq_iff (x ∷ xs) [] = ground arith
bytes_eq_iff (x ∷ xs) (y ∷ ys) = ground (arith, bytes_eq_iff xs ys)

pub bytes_before_irrefl : (a : List ℕ) → bytes_before a a ≡ false
bytes_before_irrefl [] = refl
bytes_before_irrefl (x ∷ xs) = ground (arith, bytes_before_irrefl xs)

pub bytes_before_trans :
    (a b c : List ℕ) → bytes_before a b ≡ true → bytes_before b c ≡ true → bytes_before a c ≡ true
bytes_before_trans [] [] c h k = ground arith
bytes_before_trans [] (y ∷ ys) [] h k = ground arith
bytes_before_trans [] (y ∷ ys) (z ∷ zs) h k = refl
bytes_before_trans (x ∷ xs) [] c h k = ground arith
bytes_before_trans (x ∷ xs) (y ∷ ys) [] h k = ground arith
bytes_before_trans (x ∷ xs) (y ∷ ys) (z ∷ zs) h k = ground (arith, bytes_before_trans xs ys zs)

pub bytes_before_total :
    (a b : List ℕ) → bytes_before a b ≡ false → bytes_eq a b ≡ false → bytes_before b a ≡ true
bytes_before_total [] [] h k = ground arith
bytes_before_total [] (y ∷ ys) h k = ground arith
bytes_before_total (x ∷ xs) [] h k = refl
bytes_before_total (x ∷ xs) (y ∷ ys) h k = ground (arith, bytes_before_total xs ys)

instance abbrev pub bytes_key : Key (List ℕ)
bytes_key = record {
  beq = bytes_eq;
  before = bytes_before;
  beq_iff = bytes_eq_iff;
  before_irrefl = bytes_before_irrefl;
  before_trans = bytes_before_trans;
  before_total = bytes_before_total;
}

module _ {A B : Type 0} ⦃a : Key A⦄ ⦃b : Key B⦄ where
  abbrev pair_eq : A × B → A × B → Bool
  pair_eq x y = a.beq x.0 y.0 && b.beq x.1 y.1

  abbrev pair_before : A × B → A × B → Bool
  pair_before x y = a.before x.0 y.0 || (a.beq x.0 y.0 && b.before x.1 y.1)

  pub pair_eq_iff : (x y : A × B) → (pair_eq x y ≡ true) ↔ (x ≡ y)
  pair_eq_iff x y = ground (arith, a.beq_iff x.0 y.0, b.beq_iff x.1 y.1)

  pub pair_before_irrefl : (x : A × B) → pair_before x x ≡ false
  pair_before_irrefl x = ground (arith, a.before_irrefl x.0, b.before_irrefl x.1)

  pub pair_before_trans :
      (x y z : A × B) → pair_before x y ≡ true → pair_before y z ≡ true → pair_before x z ≡ true
  pair_before_trans x y z h k = ground (
    arith,
    a.beq_iff x.0 y.0,
    a.beq_iff y.0 z.0,
    a.beq_iff x.0 z.0,
    a.before_trans x.0 y.0 z.0,
    b.before_trans x.1 y.1 z.1,
  )

  pub pair_before_total :
      (x y : A × B) → pair_before x y ≡ false → pair_eq x y ≡ false → pair_before y x ≡ true
  pair_before_total x y h k =
      ground (
        arith,
        a.beq_iff x.0 y.0,
        a.beq_iff y.0 x.0,
        a.before_total x.0 y.0,
        b.before_total x.1 y.1,
      )

  instance abbrev pub pair_key : Key (A × B)
  pair_key = record {
    beq = pair_eq;
    before = pair_before;
    beq_iff = pair_eq_iff;
    before_irrefl = pair_before_irrefl;
    before_trans = pair_before_trans;
    before_total = pair_before_total;
  }
