-- ===== src/Runtime/Laws.antt =====
-- runtime/src/handler.rs: what an invariant of a handler is, as laws of its operations.
use sputnikvm.Base.{ℕ, Bool, true, false, ◌||◌, List, Option, ok, ◌≡◌, ◌≢◌, ◌⊎◌}
use sputnikvm.Base.Outcome.{IsFine}
use sputnikvm.PrimitiveTypes.{U256Ops, H160, H256}
use sputnikvm.Core.Error.{Capture}
use sputnikvm.Core.Opcode.{Opcode}
use sputnikvm.Core.Stack as Core
use sputnikvm.Core.Machine.{Machine}
use sputnikvm.Gasometer.Dynamic.StaticMode.{ChangesState}
use sputnikvm.Runtime.Context.{CreateScheme, Context, Transfer, PaysNothing}
use sputnikvm.Runtime.Trait.{HandlerTrait, Created, Called}

-- `R` relates a handler to what it may become, `Good` is what it relies on, and `static` whether it is
-- static: a static handler lets no opcode through that changes the state. `C` is when an addition may panic.
pub record Laws ⦃U : U256Ops⦄ (C : Type 0) {H CreateInterrupt CallInterrupt : Type 0}
    (T : HandlerTrait H CreateInterrupt CallInterrupt) (static : H → Bool) (Good : H → Type 0)
    (R : H → H → Type 0) : Type 0 where
  pub done : (h : H) → R h h
  pub then : {h i j : H} → R h i → R i j → R h j
  pub same_static : {h i : H} → R h i → static i ≡ static h
  pub good : {h i : H} → R h i → Good h → Good i
  pub pre_validate :
      (h : H) (c : Context) (o : Opcode) (s : Core.Stack) → R h (T.pre_validate h c o s).1
  pub guard :
      (h : H) (c : Context) (o : Opcode) (s : Core.Stack)
      → static h ≡ true
      → ChangesState s o
      → (T.pre_validate h c o s).0 ≢ ok tt
  pub set_storage :
      (h : H) (a : H160) (k v : H256) → static h ≡ false → R h (T.set_storage h a k v).1
  pub log :
      (h : H) (a : H160) (topics : List H256) (bytes : List ℕ)
      → static h ≡ false
      → R h (T.log h a topics bytes).1
  pub mark_delete : (h : H) (a target : H160) → static h ≡ false → R h (T.mark_delete h a target).1
  pub create :
      (h : H) (caller : H160) (scheme : CreateScheme) (value : ℕ) (code : List ℕ) (gas : Option ℕ)
      → Good h
      → static h ≡ false
      → IsFine C {A = Capture Created CreateInterrupt × H}
          (λ x. R h x.1)
          (T.create h caller scheme value code gas)
  pub call :
      (h : H) (a : H160) (transfer : Option Transfer) (input : List ℕ) (gas : Option ℕ)
      (is_static : Bool) (c : Context)
      → Good h
      → ((is_static || static h) ≡ false) ⊎ PaysNothing transfer
      → IsFine C {A = Capture Called CallInterrupt × H}
          (λ x. R h x.1)
          (T.call h a transfer input gas is_static c)
  pub other : (h : H) (o : Opcode) (m : Machine) → R h (T.other h o m).2
