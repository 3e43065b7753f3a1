-- ===== src/Base/Map/Sorted.antt =====
-- The order of the entries, which leaves one entry for a key.
use mathlib.Core.Path.{◌≡◌, refl, sym}
use mathlib.Core.Logic.{inl, inr}
use mathlib.Core.Bool.{true}
use mathlib.Core.Option.{none}
use mathlib.Core.List.{List, [], ◌∷◌}
use native.Mathlib.Omega.{arith}
use sputnikvm.Base.Tests.{Bool-cases}
use sputnikvm.Base.Key.{Key}
use sputnikvm.Base.Map.{Map, get, insert, remove, remove_all, append}

module _ {K V : Type 0} ⦃key : Key K⦄ where
  -- The first key is after `k`.
  abbrev pub IsAfter : K → Map K V → Type 0
  IsAfter k [] = Unit {0}
  IsAfter k ((i, w) ∷ m) = key.before k i ≡ true

  abbrev pub IsSorted : Map K V → Type 0
  IsSorted [] = Unit {0}
  IsSorted ((k, v) ∷ m) = IsAfter k m × IsSorted m

  -- A sorted map has no entry for a key that is before its first.
  pub get-IsAfter : (k : K) (m : Map K V) → IsAfter k m → IsSorted m → get m k ≡ none
  unfolding get
  get-IsAfter k [] h s = refl
  get-IsAfter k ((i, w) ∷ []) h s = ground (arith, key.beq_iff i k, key.before_irrefl k)
  get-IsAfter k ((i, w) ∷ (j, x) ∷ m) h s = ground (
    arith,
    key.beq_iff i k,
    key.before_irrefl k,
    get-IsAfter k ((j, x) ∷ m) (key.before_trans k i j h s.0) s.1,
  )

  IsAfter-before : (i j : K) (m : Map K V) → key.before i j ≡ true → IsAfter j m → IsAfter i m
  IsAfter-before i j [] h a = tt
  IsAfter-before i j ((k, w) ∷ m) h a = key.before_trans i j k h a

  insert-IsAfter :
      (i k : K) (v : V) (m : Map K V)
      → key.before i k ≡ true
      → IsAfter i m
      → IsAfter i (insert m k v)
  unfolding insert
  insert-IsAfter i k v [] h a = h
  insert-IsAfter i k v ((j, w) ∷ m) h a = ground (arith, key.beq_iff j k)

  pub insert-IsSorted : (m : Map K V) (k : K) (v : V) → IsSorted m → IsSorted (insert m k v)
  unfolding insert
  insert-IsSorted [] k v s = (tt, tt)
  insert-IsSorted ((i, w) ∷ m) k v s = elim (Bool-cases (key.beq i k)) [
    | inl e ↦ rw (e, insert) (rw (sym ((key.beq_iff i k).0 e)) s)
    | inr e ↦ elim (Bool-cases (key.before k i)) [
      | inl b ↦ rw (e, b, insert) (b, s)
      | inr b ↦
          rw (e, b, insert)
            (
              insert-IsAfter i k v m
                  (key.before_total k i b (ground (arith, key.beq_iff i k, key.beq_iff k i))) s.0,
              insert-IsSorted m k v s.1,
            )
    ]
  ]

  remove-IsAfter : (i k : K) (m : Map K V) → IsAfter i m → IsSorted m → IsAfter i (remove m k)
  unfolding remove
  remove-IsAfter i k [] h s = tt
  remove-IsAfter i k ((j, w) ∷ m) h s = elim (Bool-cases (key.beq j k)) [
    | inl e ↦ rw (e, remove) (remove-IsAfter i k m (IsAfter-before i j m h s.0) s.1)
    | inr e ↦ rw (e, remove) h
  ]

  pub remove-IsSorted : (m : Map K V) (k : K) → IsSorted m → IsSorted (remove m k)
  unfolding remove
  remove-IsSorted [] k s = tt
  remove-IsSorted ((i, w) ∷ m) k s = elim (Bool-cases (key.beq i k)) [
    | inl e ↦ rw (e, remove) (remove-IsSorted m k s.1)
    | inr e ↦ rw (e, remove) (remove-IsAfter i k m s.0 s.1, remove-IsSorted m k s.1)
  ]

  pub remove_all-IsSorted : (ks : List K) (m : Map K V) → IsSorted m → IsSorted (remove_all m ks)
  unfolding remove_all
  remove_all-IsSorted [] m s = s
  remove_all-IsSorted (k ∷ ks) m s = remove_all-IsSorted ks (remove m k) (remove-IsSorted m k s)

  pub append-IsSorted : (m other : Map K V) → IsSorted m → IsSorted (append m other)
  unfolding append
  append-IsSorted m [] s = s
  append-IsSorted m ((k, v) ∷ other) s =
      insert-IsSorted (append m other) k v (append-IsSorted m other s)
