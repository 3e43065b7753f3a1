-- ===== src/Executor/StackState/Nested.antt =====
-- src/executor/stack/state.rs: what a state has gone through, as operations on its substates over the same
-- backend.
use sputnikvm.Base.{
  ℕ, Bool, false, List, some, Option-cases, some-injective, inl, inr, ◌≡◌, refl, sym, subst, ◌∙◌,
  arith,
}
use sputnikvm.PrimitiveTypes.{U256Ops, H160, H256}
use sputnikvm.Runtime.Context.{Transfer, MovesNothing}
use sputnikvm.Backend.{Backend}
use sputnikvm.Executor.Metadata.{StackSubstateMetadata}
use sputnikvm.Executor.State.{MemoryStackSubstate}
use sputnikvm.Executor.State.Change as Change
use sputnikvm.Executor.State.Nesting.{Step, Run}
use sputnikvm.Executor.State.Nesting.Discard.{Run-Inside}
use sputnikvm.Executor.StackState as StackState
use sputnikvm.Executor.StackState.{MemoryStackState}

abbrev pub static_state : MemoryStackState → Bool
static_state s = s.substate.top.metadata.is_static

module _ ⦃U : U256Ops⦄ where
  Run-append :
      {backend : Backend} {b : Bool} {s t u : MemoryStackSubstate}
      → Run backend b s t
      → Run backend b t u
      → Run backend b s u
  Run-append (Run.done b s) l = l
  Run-append (Run.step st r) l = Run.step st (Run-append r l)
  Run-append (Run.committed g i q r h k) l = Run.committed g i q r h (Run-append k l)
  Run-append (Run.reverted g i q r h k) l = Run.reverted g i q r h (Run-append k l)
  Run-append (Run.discarded g i q r h k) l = Run.discarded g i q r h (Run-append k l)

  -- A run is one over an equal backend, and as static.
  moved :
      {backend other : Backend} {b c : Bool} {s t : MemoryStackSubstate}
      → backend ≡ other
      → b ≡ c
      → Run backend b s t
      → Run other c s t
  moved {other = other} {b = b} {s = s} {t = t} h k r =
      subst (λ c. Run other c s t) k (subst (λ x. Run x b s t) h r)

  -- From one state to another over the same backend, by operations that a static state allows if it is
  -- one.
  pub record Nested (s t : MemoryStackState) : Type 0 where
    pub backend : t.backend ≡ s.backend
    pub run : Run s.backend (static_state s) s.substate t.substate

  pub Nested-static : {s t : MemoryStackState} → Nested s t → static_state t ≡ static_state s
  Nested-static n = (Run-Inside n.run).static

  pub done : (s : MemoryStackState) → Nested s s
  done s = record { backend = refl; run = Run.done _ s.substate }

  pub then : {s t u : MemoryStackState} → Nested s t → Nested t u → Nested s u
  then n m = record {
    backend = m.backend ∙ n.backend;
    run = Run-append n.run (moved n.backend (Nested-static n) m.run);
  }

  one :
      (s : MemoryStackState) (t : MemoryStackSubstate)
      → Step s.backend (static_state s) s.substate t
      → Nested s (record s { substate = t })
  one s t st = record { backend = refl; run = Run.step st (Run.done _ t) }

  pub Nested-set_metadata :
      (s : MemoryStackState) (m : StackSubstateMetadata)
      → m.is_static ≡ static_state s
      → Nested s (StackState.set_metadata s m)
  unfolding StackState.set_metadata
  Nested-set_metadata s m h = one s _ (Step.metadata (static_state s) s.substate m h)

  pub Nested-touch : (s : MemoryStackState) (a : H160) → Nested s (StackState.touch s a)
  unfolding StackState.touch
  Nested-touch s a = one s _ (Step.touch (static_state s) s.substate a)

  pub Nested-transfer_nothing :
      (s : MemoryStackState) (t : Transfer) → MovesNothing t → Nested s (StackState.transfer s t).1
  unfolding StackState.transfer StackState.changed
  Nested-transfer_nothing s t h = one s _ (Step.transfer_nothing (static_state s) s.substate t h)

  module _ (s : MemoryStackState) (h : static_state s ≡ false) where
    free :
        {t : MemoryStackSubstate}
        → Step s.backend false s.substate t
        → Nested s (record s { substate = t })
    free {t} st = one s t (subst (λ b. Step s.backend b s.substate t) (sym h) st)

    pub Nested-set_storage : (a : H160) (k v : H256) → Nested s (StackState.set_storage s a k v)
    unfolding StackState.set_storage
    Nested-set_storage a k v = free (Step.set_storage s.substate a k v)

    pub Nested-reset_storage : (a : H160) → Nested s (StackState.reset_storage s a)
    unfolding StackState.reset_storage
    Nested-reset_storage a = free (Step.reset_storage s.substate a)

    pub Nested-log :
        (a : H160) (topics : List H256) (bytes : List ℕ)
        → Nested s (StackState.log s a topics bytes)
    unfolding StackState.log
    Nested-log a topics bytes = free (Step.log s.substate a topics bytes)

    pub Nested-set_deleted : (a : H160) → Nested s (StackState.set_deleted s a)
    unfolding StackState.set_deleted
    Nested-set_deleted a = free (Step.set_deleted s.substate a)

    pub Nested-set_code : (a : H160) (code : List ℕ) → Nested s (StackState.set_code s a code)
    unfolding StackState.set_code
    Nested-set_code a code = free (Step.set_code s.substate a code)

    pub Nested-reset_balance : (a : H160) → Nested s (StackState.reset_balance s a)
    unfolding StackState.reset_balance
    Nested-reset_balance a = free (Step.reset_balance s.substate a)

    pub Nested-inc_nonce :
        (a : H160) (t : MemoryStackState) → StackState.inc_nonce s a ≡ some t → Nested s t
    unfolding StackState.inc_nonce
    Nested-inc_nonce a t = elim (Option-cases (Change.inc_nonce s.substate a s.backend)) [
      | inl e ↦ rw (e, StackState.inc_nonce) (λ h. ground arith)
      | inr (u, e) ↦
          rw (e, StackState.inc_nonce)
            (λ h. subst (Nested s) (some-injective h) (free (Step.inc_nonce s.substate u a e)))
    ]

    pub Nested-transfer : (t : Transfer) → Nested s (StackState.transfer s t).1
    unfolding StackState.transfer StackState.changed
    Nested-transfer t = free (Step.transfer s.substate t)
