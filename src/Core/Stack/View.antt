-- ===== src/Core/Stack/View.antt =====
-- core/src/stack.rs: the stack as a list with its top first.
use mathlib.Core.List.{reverse-append}
use sputnikvm.Base.{
  ok_or, ℕ, zero, suc, ◌-◌, ◌<◌, ◌≡◌, ◌⊎◌, subst, set_past, set-append_left, set-append_last, refl,
  sym, ap, ◌∙◌, tests, Bool-cases, some, List, [], ◌∷◌, ◌++◌, ok, err, ltb, if◌then◌else◌, length,
  get_or, set as list_set, length-append, reverse, arith, inl, inr, get_or-append_left,
  get_or-append_right,
}
use native.Mathlib.Nat.{add-zero}
use sputnikvm.Base.Result.{Result}
use sputnikvm.PrimitiveTypes.{H256, zero_h256}
use sputnikvm.Core.Error.{ExitError, stack_underflow, stack_overflow}
use sputnikvm.Core.Stack.{Stack, vec_pop, pop, push, peek, set}

-- What a client sees: the items, the top first.
abbrev pub view : Stack → List H256
view s = reverse s.data_items

-- The operations on that list.
abbrev pub pop_view : List H256 → Result ExitError H256 × List H256
pop_view [] = (err stack_underflow, [])
pop_view (v ∷ vs) = (ok v, vs)

abbrev pub push_view : ℕ → List H256 → H256 → Result ExitError (Unit {0}) × List H256
push_view limit vs v = if ltb (length vs) limit then (ok tt, v ∷ vs) else (err stack_overflow, vs)

abbrev pub peek_view : List H256 → ℕ → Result ExitError H256
peek_view [] n = err stack_underflow
peek_view (v ∷ vs) zero = ok v
peek_view (v ∷ vs) (suc n) = peek_view vs n

abbrev pub set_view : List H256 → ℕ → H256 → Result ExitError (Unit {0}) × List H256
set_view vs n v = (if ltb n (length vs) then ok tt else err stack_underflow, list_set vs n v)

reverse-snoc : (x : H256) (xs : List H256) → reverse (x ∷ xs) ≡ reverse xs ++ (x ∷ [])
reverse-snoc x xs = reverse-append (x ∷ []) xs

length-reverse : (xs : List H256) → length (reverse xs) ≡ length xs
length-reverse [] = refl
length-reverse (x ∷ xs) =
    rw reverse-snoc (omega (arith, length-append (reverse xs) (x ∷ []), length-reverse xs))

-- A list is empty, or has a last item.
snoc-cases : (xs : List H256) → (xs ≡ []) ⊎ ((ys : List H256) × (y : H256) × (xs ≡ ys ++ (y ∷ [])))
snoc-cases [] = inl refl
snoc-cases (x ∷ xs) = elim (snoc-cases xs) [
  | inl e ↦ inr ([], x, ap (λ zs. x ∷ zs) e)
  | inr (ys, y, e) ↦ inr (x ∷ ys, y, ap (λ zs. x ∷ zs) e)
]

vec_pop-snoc : (xs : List H256) (x : H256) → vec_pop (xs ++ (x ∷ [])) ≡ (some x, xs)
unfolding vec_pop
vec_pop-snoc [] x = refl
vec_pop-snoc (y ∷ []) x = refl
vec_pop-snoc (y ∷ z ∷ zs) x = rw (vec_pop-snoc (z ∷ zs) x)

reverse-append_one : (xs : List H256) (x : H256) → reverse (xs ++ (x ∷ [])) ≡ x ∷ reverse xs
reverse-append_one xs x = reverse-append xs (x ∷ [])

vec_pop-reverse :
    (xs : List H256)
    → (ok_or (vec_pop xs).0 stack_underflow, reverse (vec_pop xs).1) ≡ pop_view (reverse xs)
vec_pop-reverse xs = elim (snoc-cases xs) [
  | inl e ↦ rw e (unfold vec_pop in refl)
  | inr (ys, y, e) ↦ rw (e, vec_pop-snoc, reverse-append_one)
]

from_top :
    (xs : List H256) (n : ℕ) → n < length xs → suc (length xs) - n - 1 ≡ suc (length xs - n - 1)
from_top xs n h = omega arith

from_bottom : (xs : List H256) → suc (length xs) - length xs - 1 ≡ 0
from_bottom xs = omega arith

-- The item at index `n` from the end.
get_or-reverse :
    (xs : List H256) (n : ℕ) (d : H256)
    → n < length xs
    → get_or xs (length xs - n - 1) d ≡ get_or (reverse xs) n d
get_or-reverse [] n d h = absurd (omega arith)
get_or-reverse (x ∷ xs) n d h = elim (Bool-cases (ltb n (length xs))) [
  | inl below ↦
      rw (reverse-snoc x xs, from_top xs n (omega tests))
        (get_or-reverse xs n d (omega tests)
          ∙ sym (get_or-append_left (reverse xs) (x ∷ []) n d (omega (tests, length-reverse xs))))
  | inr last ↦
      let e : n ≡ length xs = ground arith in
      rw (e, reverse-snoc x xs, from_bottom xs)
        (sym (
          subst (λ k. get_or (reverse xs ++ (x ∷ [])) k d ≡ x)
            (add-zero (length (reverse xs)) ∙ length-reverse xs)
            (get_or-append_right (reverse xs) (x ∷ []) 0 d)))
]

set-reverse :
    (xs : List H256) (n : ℕ) (v : H256)
    → n < length xs
    → reverse (list_set xs (length xs - n - 1) v) ≡ list_set (reverse xs) n v
set-reverse [] n v h = absurd (omega arith)
set-reverse (x ∷ xs) n v h = elim (Bool-cases (ltb n (length xs))) [
  | inl below ↦
      rw
        (
          from_top xs n (omega tests),
          reverse-snoc x xs,
          reverse-snoc x (list_set xs (length xs - n - 1) v),
          set-reverse xs n v (omega tests),
        )
        (sym (set-append_left (reverse xs) (x ∷ []) n v (omega (tests, length-reverse xs))))
  | inr last ↦
      let e : n ≡ length xs = ground arith in
      rw (e, from_bottom xs, reverse-snoc x xs, reverse-snoc v xs, ← length-reverse xs)
        (sym (set-append_last (reverse xs) x v))
]

peek_view-get_or :
    (vs : List H256) (n : ℕ)
    → peek_view vs n
      ≡ (if ltb n (length vs) then ok (get_or vs n zero_h256) else err stack_underflow)
peek_view-get_or [] n = ground arith
peek_view-get_or (v ∷ vs) zero = ground arith
peek_view-get_or (v ∷ vs) (suc n) = ground (arith, peek_view-get_or vs n)

-- `pop` returns the top of the view and leaves the rest, or fails on the empty stack and leaves it.
pub pop_refines : (s : Stack) → ((pop s).0, view (pop s).1) ≡ pop_view (view s)
unfolding pop
pop_refines s = vec_pop-reverse s.data_items

-- `push` puts the value on top of the view while there is room, and else fails and changes nothing.
pub push_refines :
    (s : Stack) (v : H256) → ((push s v).0, view (push s v).1) ≡ push_view s.limit (view s) v
unfolding push
push_refines s v = ground (arith, length-reverse s.data_items, reverse-append_one s.data_items v)

-- `peek n` returns the item `n` places below the top.
pub peek_refines : (s : Stack) (n : ℕ) → peek s n ≡ peek_view (view s) n
unfolding peek
peek_refines s n =
    rw peek_view-get_or
      (ground (arith, length-reverse s.data_items, get_or-reverse s.data_items n zero_h256))

-- `set n` replaces the item `n` places below the top, or fails and changes nothing.
pub set_refines :
    (s : Stack) (n : ℕ) (v : H256) → ((set s n v).0, view (set s n v).1) ≡ set_view (view s) n v
unfolding set
set_refines s n v = ground (
  arith,
  length-reverse s.data_items,
  set-reverse s.data_items n v,
  set_past (reverse s.data_items) n v,
)

-- On the list of items with the top first: `pop` returns the top and leaves the rest, or fails on the empty
-- stack and leaves it; `push` puts the value on top while there is room, and else fails and changes
-- nothing; `peek n` returns the item n places below the top, or fails where there is none; `set n`
-- replaces that item, or fails and changes nothing.
pub stack_refines :
    (s : Stack) (n : ℕ) (v : H256)
    → (((pop s).0, view (pop s).1) ≡ pop_view (view s))
      × (((push s v).0, view (push s v).1) ≡ push_view s.limit (view s) v)
      × (peek s n ≡ peek_view (view s) n)
      × (((set s n v).0, view (set s n v).1) ≡ set_view (view s) n v)
stack_refines s n v = (pop_refines s, push_refines s v, peek_refines s n, set_refines s n v)
