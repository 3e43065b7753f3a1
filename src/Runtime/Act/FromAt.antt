-- ===== src/Runtime/Act/FromAt.antt =====
-- runtime/src/eval/macros.rs: rules for actions that pop items that something is known of.
use sputnikvm.Base.{ℕ, suc, List, ok, ◌≡◌, ◌∙◌, inl, inr}
use sputnikvm.Base.Result.{Result, Result-cases}
use sputnikvm.Base.Outcome.{IsFine, fine}
use sputnikvm.PrimitiveTypes.{U256Ops, H256}
use sputnikvm.Core.Stack as Core
use sputnikvm.Core.Stack.{Stack, peek}
use sputnikvm.Core.Stack.Under.{peek-pop}
use sputnikvm.Core.Exec as Exec
use sputnikvm.Core.Exec.{pop_value, pop_u256, with_stack}
use sputnikvm.Runtime.Act.{Runtime, Control, Act, on_machine, set_return_data, ◌>>=◌}
use sputnikvm.Runtime.Act.From.{From}

-- If there is an item `n` places below the top, it is zero.
abbrev pub ZeroAt : ⦃U : U256Ops⦄ → ℕ → Stack → Type 0
ZeroAt ⦃U⦄ n s = (v : H256) → peek s n ≡ ok v → U.from_big_endian v ≡ 0

module _ {H CreateInterrupt CallInterrupt A : Type 0} where
  -- As `From`, from a machine whose stack satisfies `Q`.
  pub record FromAt (C : Type 0) (R : H → H → Type 0) (h : H) (Q : Stack → Type 0)
      (m : Act H CreateInterrupt CallInterrupt A) : Type 0 where
    pub at :
        (r : Runtime) (i : H)
        → R h i
        → Q r.machine.stack
        → IsFine C {A = Result (Control CreateInterrupt CallInterrupt) A × Runtime × H}
            (λ x. R h x.2)
            (m r i)

  module _ {C : Type 0} {R : H → H → Type 0} {h : H} where
    pub FromAt-set_return_data :
        (Q : Stack → Type 0) (bytes : List ℕ) (f : Unit {0} → Act H CreateInterrupt CallInterrupt A)
        → FromAt C R h Q (f tt)
        → FromAt C R h Q (set_return_data bytes >>= f)
    unfolding set_return_data ◌>>=◌
    FromAt-set_return_data Q bytes f k = record { at = λ r i l q. k.at _ i l q }

    pub FromAt-pop_value :
        (Q : Stack → Type 0) (P : H256 → Stack → Type 0)
        (f : H256 → Act H CreateInterrupt CallInterrupt A)
        → ((s : Stack) (a : H256) → (Core.pop s).0 ≡ ok a → Q s → P a (Core.pop s).1)
        → ((a : H256) → FromAt C R h (P a) (f a))
        → FromAt C R h Q (on_machine pop_value >>= f)
    unfolding on_machine ◌>>=◌ pop_value with_stack
    FromAt-pop_value Q P f down k = record {
      at = λ r i l q. elim (Result-cases (Core.pop r.machine.stack).0) [
        | inl (a, e) ↦ rw e ((k a).at _ i l (down r.machine.stack a e q))
        | inr (x, e) ↦ rw e (fine _ l)
      ];
    }

    pub FromAt-pop_u256 :
        ⦃U : U256Ops⦄ (Q : Stack → Type 0) (P : ℕ → Stack → Type 0)
        (f : ℕ → Act H CreateInterrupt CallInterrupt A)
        → ((s : Stack) (a : H256)
            → (Core.pop s).0 ≡ ok a
            → Q s
            → P (U.from_big_endian a) (Core.pop s).1)
        → ((x : ℕ) → FromAt C R h (P x) (f x))
        → FromAt C R h Q (on_machine pop_u256 >>= f)
    unfolding on_machine ◌>>=◌ pop_u256 pop_value with_stack Exec.◌>>=◌ Exec.pure
    FromAt-pop_u256 Q P f down k = record {
      at = λ r i l q. elim (Result-cases (Core.pop r.machine.stack).0) [
        | inl (a, e) ↦ rw e ((k _).at _ i l (down r.machine.stack a e q))
        | inr (x, e) ↦ rw e (fine _ l)
      ];
    }

    pub FromAt-given :
        {P : Type 0} (m : Act H CreateInterrupt CallInterrupt A)
        → (P → From C R h m)
        → FromAt C R h (λ _. P) m
    FromAt-given m k = record { at = λ r i l p. (k p).at r i l }

-- The item that is popped is zero, or the others are one place higher.
module _ ⦃U : U256Ops⦄ (s : Stack) (a : H256) (e : (Core.pop s).0 ≡ ok a) where
  pub ZeroAt-pop : (n : ℕ) → ZeroAt (suc n) s → ZeroAt n (Core.pop s).1
  ZeroAt-pop n z v h = z v ((peek-pop s a n e).1 ∙ h)

  pub ZeroAt-popped : ZeroAt 0 s → U.from_big_endian a ≡ 0
  ZeroAt-popped z = z a (peek-pop s a 0 e).0
