-- ===== src/Runtime/Act/From.antt =====
-- runtime/src/eval/macros.rs: rules for what the handler may become, one for each way to build an action.
use sputnikvm.Base.{ℕ, List, ok, err}
use sputnikvm.Base.Result.{Result}
use sputnikvm.Base.Outcome.{Outcome, returned, IsFine, fine, IsFine-bind_outcome}
use sputnikvm.Core.Error.{ExitError, error}
use sputnikvm.Core.Exec.{Exec}
use sputnikvm.Runtime.Act.{
  Runtime, Control, Act, pure, stop, gets, on_machine, ask, on_handler, set_return_data, ◌>>=◌,
  go_on, exit,
}

module _ {H CreateInterrupt CallInterrupt A : Type 0} where
  -- The action does not panic, but by an addition where `C` holds, and the handler is then related to `h`, if it was before.
  pub record From (C : Type 0) (R : H → H → Type 0) (h : H)
      (m : Act H CreateInterrupt CallInterrupt A) : Type 0 where
    pub at :
        (r : Runtime) (i : H)
        → R h i
        → IsFine C {A = Result (Control CreateInterrupt CallInterrupt) A × Runtime × H}
            (λ x. R h x.2)
            (m r i)

  from_result :
      (C : Type 0) (R : H → H → Type 0) (h : H) (x : Result ExitError A) (r : Runtime) (i : H)
      → R h i
      → IsFine C {A = Result (Control CreateInterrupt CallInterrupt) A × Runtime × H}
          (λ y. R h y.2)
          (elim x [ ok a ↦ returned (ok a, r, i) | err e ↦ returned (err (exit (error e)), r, i) ])
  from_result C R h (ok a) r i k = fine _ k
  from_result C R h (err e) r i k = fine _ k

  module _ {C : Type 0} {R : H → H → Type 0} {h : H} where
    pub From-pure :
        (a : A)
        → From C R h (pure {CreateInterrupt = CreateInterrupt} {CallInterrupt = CallInterrupt} a)
    unfolding pure
    From-pure a = record { at = λ r i k. fine _ k }

    pub From-stop : (c : Control CreateInterrupt CallInterrupt) → From C R h (stop c)
    unfolding stop
    From-stop c = record { at = λ r i k. fine _ k }

    pub From-gets : (f : Runtime → A) → From C R h (gets f)
    unfolding gets
    From-gets f = record { at = λ r i k. fine _ k }

    pub From-on_machine : (m : Exec A) → From C R h (on_machine m)
    unfolding on_machine
    From-on_machine m = record { at = λ r i k. fine _ k }

    pub From-ask :
        (f : H → Outcome (A × H))
        → ((i : H) → R h i → IsFine C {A = A × H} (λ x. R h x.1) (f i))
        → From C R h (ask f)
    unfolding ask
    From-ask f g = record { at = λ r i k. IsFine-bind_outcome _ (g i k) (λ x m. fine _ m) }

    pub From-on_handler :
        (f : H → Result ExitError A × H)
        → ((i : H) → R h i → R h (f i).1)
        → From C R h (on_handler f)
    unfolding on_handler
    From-on_handler f g = record { at = λ r i k. from_result C R h (f i).0 r (f i).1 (g i k) }

module _ {C H CreateInterrupt CallInterrupt : Type 0} {R : H → H → Type 0} {h : H} where
  pub From-set_return_data :
      (bytes : List ℕ)
      → From C R h (
          set_return_data {CreateInterrupt = CreateInterrupt} {CallInterrupt = CallInterrupt} bytes)
  unfolding set_return_data
  From-set_return_data bytes = record { at = λ r i k. fine _ k }

module _ {C H CreateInterrupt CallInterrupt A B : Type 0} {R : H → H → Type 0} {h : H} where
  from_here :
      (f : A → Act H CreateInterrupt CallInterrupt B)
      (x : Result (Control CreateInterrupt CallInterrupt) A × Runtime × H)
      → R h x.2
      → ((a : A) → From C R h (f a))
      → IsFine C {A = Result (Control CreateInterrupt CallInterrupt) B × Runtime × H}
          (λ y. R h y.2)
          (go_on f x)
  from_here f (ok a, r, i) k g = (g a).at r i k
  from_here f (err c, r, i) k g = fine _ k

  pub From-bind :
      (m : Act H CreateInterrupt CallInterrupt A) (f : A → Act H CreateInterrupt CallInterrupt B)
      → From C R h m
      → ((a : A) → From C R h (f a))
      → From C R h (m >>= f)
  unfolding ◌>>=◌
  From-bind m f km kf = record {
    at = λ r i k. IsFine-bind_outcome _ (km.at r i k) (λ x l. from_here f x l kf);
  }

pub ruleset act_rules =
    (From-pure, From-stop, From-gets, From-on_machine, From-set_return_data, From-bind)
