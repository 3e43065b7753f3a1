-- ===== src/Core/Stack/Bounds.antt =====
-- core/src/stack.rs: the number of items, and the limit.
use sputnikvm.Base.{ℕ, ◌-◌, ◌≤◌, ◌≡◌, refl, List, [], ◌∷◌, length, length-append, length-set, arith}
use sputnikvm.PrimitiveTypes.{H256}
use sputnikvm.Core.Stack.{Stack, vec_pop, new, pop, push, set}

-- A stack of the given limit, with no more items than that.
pub record Fits (limit : ℕ) (s : Stack) : Type 0 where
  pub same_limit : s.limit ≡ limit
  pub bounded : length s.data_items ≤ s.limit

length-vec_pop : (xs : List H256) → length (vec_pop xs).1 ≤ length xs
unfolding vec_pop
length-vec_pop [] = omega arith
length-vec_pop (x ∷ []) = omega arith
length-vec_pop (x ∷ y ∷ ys) = omega (arith, length-vec_pop (y ∷ ys))

module _ {limit : ℕ} where
  pub new-Fits : Fits limit (new limit)
  unfolding new
  new-Fits = record { same_limit = refl; bounded = omega arith }

  pub pop-Fits : (s : Stack) → Fits limit s → Fits limit (pop s).1
  unfolding pop
  pop-Fits s f = record {
    same_limit = f.same_limit;
    bounded = omega (arith, length-vec_pop s.data_items);
  }

  pub push-Fits : (v : H256) (s : Stack) → Fits limit s → Fits limit (push s v).1
  unfolding push
  push-Fits v s f = ground (arith, length-append s.data_items (v ∷ []))

  pub peek-Fits : (n : ℕ) (s : Stack) → Fits limit s → Fits limit s
  peek-Fits n s f = f

  pub set-Fits : (n : ℕ) (v : H256) (s : Stack) → Fits limit s → Fits limit (set s n v).1
  unfolding set
  set-Fits n v s f = ground (arith, length-set s.data_items (length s.data_items - n - 1) v)
