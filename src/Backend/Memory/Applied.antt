-- ===== src/Backend/Memory/Applied.antt =====
-- src/backend/memory.rs: what a backend has after changes have been applied.
use sputnikvm.Base.{
  ℕ, Bool, true, false, List, [], ◌∷◌, ◌++◌, Option, none, some, ◌≡◌, refl, ap, ◌∙◌, if◌then◌else◌,
  arith, unwrap_or,
}
use sputnikvm.Base.Key.{bytes_eq, bytes_eq_iff, bytes_key}
use sputnikvm.Base.Map
use sputnikvm.Base.Map.{Map}
use sputnikvm.Base.Map.Sorted.{IsSorted, get-IsAfter}
use sputnikvm.PrimitiveTypes.{H160, H256, zero_h256, h256_eq}
use sputnikvm.Backend.{Basic, Apply, modify}
use sputnikvm.Backend.Memory.{
  MemoryAccount, or_zero, zeros, write_storage, entry, modified, apply_one, apply_all,
}

abbrev is_zero : Option H256 → Bool
is_zero none = false
is_zero (some v) = h256_eq v zero_h256

member-zeros :
    (m : Map H256 H256) (k : H256) → IsSorted m → Map.member (zeros m) k ≡ is_zero (Map.get m k)
unfolding zeros Map.member
member-zeros [] k s = ground (arith, Map.get-empty {V = H256} k)
member-zeros ((i, v) ∷ m) k s =
    ground
      (arith, member-zeros m k s.1, Map.get-cons m i k v, get-IsAfter i m s.0 s.1, bytes_eq_iff i k)

-- Only zeros are removed.
or_zero-remove_all-zeros :
    (m : Map H256 H256) (k : H256)
    → IsSorted m
    → or_zero (Map.get (Map.remove_all m (zeros m)) k) ≡ or_zero (Map.get m k)
or_zero-remove_all-zeros m k s =
    rw (Map.get-remove_all (zeros m) m k, member-zeros m k s) (zero_or_kept (Map.get m k))
  where
    zero_or_kept : (o : Option H256) → or_zero (if is_zero o then none else o) ≡ or_zero o
    zero_or_kept none = refl
    zero_or_kept (some v) = ground (arith, bytes_eq_iff v zero_h256)

-- The values that are written replace those that were there.
or_zero-write_storage :
    (l m : Map H256 H256) (k : H256)
    → IsSorted l
    → or_zero (Map.get (write_storage m l) k) ≡ unwrap_or (Map.get l k) (or_zero (Map.get m k))
unfolding write_storage
or_zero-write_storage [] m k s = ground (arith, Map.get-empty {V = H256} k)
or_zero-write_storage ((i, v) ∷ l) m k s = ground (
  arith,
  or_zero-write_storage l (if h256_eq v zero_h256 then Map.remove m i else Map.insert m i v) k s.1,
  Map.get-remove m i k,
  Map.get-insert m i k v,
  Map.get-cons l i k v,
  get-IsAfter i l s.0 s.1,
  bytes_eq_iff i k,
  bytes_eq_iff v zero_h256,
)

pub get-apply_modify :
    (st : Map H160 MemoryAccount) (a j : H160) (b : Basic) (c : Option (List ℕ))
    (l : List (H256 × H256)) (r : Bool)
    → Map.get (apply_one false st (modify a b c l r)) j
      ≡ (if bytes_eq a j then some (modified (entry (Map.get st a)) b c l r) else Map.get st j)
unfolding apply_one
get-apply_modify st a j b c l r =
    ground (arith, Map.get-insert st a j (modified (entry (Map.get st a)) b c l r))

pub apply_all-append :
    (st : Map H160 MemoryAccount) (xs ys : List Apply)
    → apply_all false st (xs ++ ys) ≡ apply_all false (apply_all false st xs) ys
unfolding apply_all
apply_all-append st [] ys = refl
apply_all-append st (x ∷ xs) ys = apply_all-append (apply_one false st x) xs ys

-- The storage of an account that was modified: the new values, over those that are kept.
pub modified-storage :
    (account : MemoryAccount) (b : Basic) (c : Option (List ℕ)) (l : Map H256 H256) (r : Bool)
    (k : H256)
    → IsSorted l
    → IsSorted account.storage
    → or_zero (Map.get (modified account b c l r).storage k)
      ≡ unwrap_or (Map.get l k) (if r then zero_h256 else or_zero (Map.get account.storage k))
unfolding modified
modified-storage account b c l true k sl sa =
    or_zero-write_storage l _ k sl
    ∙ ap (unwrap_or (Map.get l k))
        (or_zero-remove_all-zeros [] k tt ∙ ap or_zero (Map.get-empty {V = H256} k))
modified-storage account b c l false k sl sa =
    or_zero-write_storage l _ k sl
    ∙ ap (unwrap_or (Map.get l k)) (or_zero-remove_all-zeros account.storage k sa)
