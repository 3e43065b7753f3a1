-- ===== src/Core/Stack/Under.antt =====
-- core/src/stack.rs: what lies under the item that is popped.
use sputnikvm.Base.{ℕ, suc, List, [], ◌∷◌, ok, ◌≡◌, refl, ap, ◌∙◌, sym, arith}
use sputnikvm.PrimitiveTypes.{H256}
use sputnikvm.Core.Stack.{Stack, pop, peek}
use sputnikvm.Core.Stack.View.{view, pop_view, peek_view, pop_refines, peek_refines}

popped_view :
    (items : List H256) (a : H256) (n : ℕ)
    → (pop_view items).0 ≡ ok a
    → (peek_view items 0 ≡ ok a) × (peek_view items (suc n) ≡ peek_view (pop_view items).1 n)
popped_view [] a n h = ground arith
popped_view (x ∷ xs) a n h = (h, refl)

-- The item that is popped is the one on top, and the items under it are one place higher afterwards.
pub peek-pop :
    (s : Stack) (a : H256) (n : ℕ)
    → (pop s).0 ≡ ok a
    → (peek s 0 ≡ ok a) × (peek s (suc n) ≡ peek (pop s).1 n)
peek-pop s a n h =
    let (top, rest) = popped_view (view s) a n (ap (λ x. x.0) (sym (pop_refines s)) ∙ h) in
    (
      peek_refines s 0 ∙ top,
      peek_refines s (suc n)
          ∙ rest
          ∙ ap (λ x. peek_view x.1 n) (sym (pop_refines s))
          ∙ sym (peek_refines (pop s).1 n),
    )
