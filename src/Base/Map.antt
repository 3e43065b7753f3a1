-- ===== src/Base/Map.antt =====
-- `BTreeMap` and `BTreeSet` as lists of entries, which are kept in the order of their keys.
pub mod Sorted
use mathlib.Core.Path.{◌≡◌, refl}
use mathlib.Core.Bool.{Bool, true, false, ◌&&◌, ◌||◌}
use mathlib.Core.Option.{Option, none, some}
use mathlib.Core.List.{List, [], ◌∷◌}
use native.Mathlib.Omega.{arith}
use sputnikvm.Base.Tests.{if◌then◌else◌}
use sputnikvm.Base.Key.{Key}

abbrev pub Map : Type 0 → Type 0 → Type 0
Map K V = List (K × V)

abbrev pub Set : Type 0 → Type 0
Set K = List (K × Unit {0})

-- The value of an option, or another one: `or_else`.
abbrev pub or_else : {A : Type 0} → Option A → Option A → Option A
or_else (some a) o = some a
or_else none o = o

abbrev pub is_some : {A : Type 0} → Option A → Bool
is_some (some a) = true
is_some none = false

module _ {K : Type 0} ⦃key : Key K⦄ where
  unfoldable pub member : List K → K → Bool
  member [] j = false
  member (k ∷ ks) j = key.beq k j || member ks j

module _ {K V : Type 0} ⦃key : Key K⦄ where
  unfoldable pub get : Map K V → K → Option V
  get [] j = none
  get ((k, v) ∷ m) j = if key.beq k j then some v else get m j

  unfoldable pub contains_key : Map K V → K → Bool
  contains_key m j = is_some (get m j)

  unfoldable pub insert : Map K V → K → V → Map K V
  insert [] k v = (k, v) ∷ []
  insert ((i, w) ∷ m) k v =
      let rest = insert m k v in
      if key.beq i k
      then (k, v) ∷ m
      else if key.before k i
      then (k, v) ∷ (i, w) ∷ m
      else (i, w) ∷ rest

  unfoldable pub remove : Map K V → K → Map K V
  remove [] k = []
  remove ((i, w) ∷ m) k = let rest = remove m k in if key.beq i k then rest else (i, w) ∷ rest

  -- `append`: the entries of the second map replace those of the first.
  unfoldable pub append : Map K V → Map K V → Map K V
  append m [] = m
  append m ((k, v) ∷ other) = insert (append m other) k v

  pub keys : Map K V → List K
  keys [] = []
  keys ((k, v) ∷ m) = k ∷ keys m

  -- A loop that removes each key of a list.
  unfoldable pub remove_all : Map K V → List K → Map K V
  remove_all m [] = m
  remove_all m (k ∷ ks) = remove_all (remove m k) ks

  pub get-insert :
      (m : Map K V) (k j : K) (v : V)
      → get (insert m k v) j ≡ (if key.beq k j then some v else get m j)
  unfolding get insert
  get-insert [] k j v = refl
  get-insert ((i, w) ∷ m) k j v =
      ground (arith, key.beq_iff k j, key.beq_iff i k, key.beq_iff i j, get-insert m k j v)

  pub get-cons :
      (m : Map K V) (k j : K) (v : V)
      → get ((k, v) ∷ m) j ≡ (if key.beq k j then some v else get m j)
  unfolding get
  get-cons m k j v = refl

  pub contains_key_lem : (m : Map K V) (j : K) → contains_key m j ≡ is_some (get m j)
  unfolding contains_key
  contains_key_lem m j = refl

  pub get-remove :
      (m : Map K V) (k j : K) → get (remove m k) j ≡ (if key.beq k j then none else get m j)
  unfolding get remove
  get-remove [] k j = ground arith
  get-remove ((i, w) ∷ m) k j =
      ground (arith, key.beq_iff k j, key.beq_iff i k, key.beq_iff i j, get-remove m k j)

  pub get-append :
      (m other : Map K V) (j : K) → get (append m other) j ≡ or_else (get other j) (get m j)
  unfolding get append
  get-append m [] j = refl
  get-append m ((k, v) ∷ other) j =
      rw (get-insert (append m other) k j v) (ground (arith, get-append m other j))

  -- A loop that collects the keys with a property.
  unfoldable pub keys_with : (K → Bool) → Map K V → List K
  keys_with p [] = []
  keys_with p ((k, v) ∷ m) = let rest = keys_with p m in if p k then k ∷ rest else rest

  pub get-remove_all :
      (ks : List K) (m : Map K V) (j : K)
      → get (remove_all m ks) j ≡ (if member ks j then none else get m j)
  unfolding remove_all member
  get-remove_all [] m j = refl
  get-remove_all (k ∷ ks) m j = ground (arith, get-remove m k j, get-remove_all ks (remove m k) j)

  member-keys_with :
      (p : K → Bool) (m : Map K V) (j : K) → member (keys_with p m) j ≡ (p j && is_some (get m j))
  unfolding get member keys_with
  member-keys_with p [] j = ground arith
  member-keys_with p ((k, v) ∷ m) j = ground (arith, key.beq_iff k j, member-keys_with p m j)

  -- Removing each key with a property leaves the other entries as they are.
  pub get-remove_all-keys_with :
      (p : K → Bool) (m : Map K V) (j : K)
      → get (remove_all m (keys_with p m)) j ≡ (if p j then none else get m j)
  get-remove_all-keys_with p m j =
      rw (get-remove_all (keys_with p m) m j, member-keys_with p m j) (ground arith)

pub get-empty : {K V : Type 0} ⦃key : Key K⦄ (j : K) → get {K = K} {V = V} [] j ≡ none
unfolding get
get-empty j = refl
