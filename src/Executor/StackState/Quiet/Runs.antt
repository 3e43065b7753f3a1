-- ===== src/Executor/StackState/Quiet/Runs.antt =====
-- src/executor/stack/state.rs: what is seen after a run of operations in a static state.
use sputnikvm.Base.{ℕ, Bool, true, ◌||◌, [], ◌∷◌, some, ok, err, ◌≡◌, refl, sym, subst, arith}
use mathlib.Core.List.{append-nil}
use sputnikvm.Base.Map
use sputnikvm.Base.Result.{Result}
use sputnikvm.Core.Error.{ExitError}
use sputnikvm.PrimitiveTypes.{U256Ops}
use sputnikvm.Backend.{Backend}
use sputnikvm.Executor.Metadata.{StackSubstateMetadata}
use sputnikvm.Executor.State.{MemoryStackSubstate, enter, exit_commit}
use sputnikvm.Executor.State.Known.{
  known_account, known_account_in, known_basic, known_code, deleted_in, deleted as known_deleted,
}
use sputnikvm.Executor.State.Kept.{exit_commit-known}
use sputnikvm.Executor.State.Nesting.{Step, Run}
use sputnikvm.Executor.State.Nesting.Exits.{
  Back, back, exit_commit-Back, exit_revert-Back, exit_discard-Back,
}
use sputnikvm.Executor.State.Nesting.Discard.{Run-Inside}
use sputnikvm.Executor.StackState as StackState
use sputnikvm.Executor.StackState.{MemoryStackState}
use sputnikvm.Executor.StackState.Nested.{Nested, static_state}
use sputnikvm.Executor.StackState.Quiet.{
  SameView, HasFunds, same, afterwards, HasFunds-SameView, touch-SameView, transfer-SameView,
}

-- A substate over a backend.
abbrev pub over : Backend → MemoryStackSubstate → MemoryStackState
over b s = record { backend = b; substate = s }

-- What is seen of a substate does not depend on the metadata of its frames.
pub metadata-SameView :
    (b : Backend) (s : MemoryStackSubstate) (m : StackSubstateMetadata)
    → SameView (over b s) (over b (record s { top = record s.top { metadata = m } }))
unfolding StackState.basic StackState.code StackState.deleted known_account known_account_in
    known_basic known_code known_deleted deleted_in
metadata-SameView b s m = record {
  basic = λ a. refl;
  code = λ a. refl;
  deleted = λ a. refl;
  logs = refl;
}

pub enter-SameView :
    (b : Backend) (s : MemoryStackSubstate) (gas_limit : ℕ) (is_static : Bool)
    → SameView (over b s) (over b (enter s gas_limit is_static))
unfolding StackState.basic StackState.code StackState.deleted known_account known_account_in
    known_basic known_code known_deleted deleted_in enter Map.get Map.contains_key
enter-SameView b s gas_limit is_static = record {
  basic = λ a. refl;
  code = λ a. refl;
  deleted = λ a. refl;
  logs = append-nil _;
}

pub Back-SameView :
    (b : Backend) (s : MemoryStackSubstate) {u : MemoryStackSubstate}
    → Back s.top s.parents u
    → SameView (over b s) (over b u)
Back-SameView b s (back m) = metadata-SameView b s m

pub commit-SameView :
    (b : Backend) (s t u : MemoryStackSubstate) (r : Result ExitError (Unit {0}))
    → t.parents ≡ s.top ∷ s.parents
    → exit_commit t ≡ some (r, u)
    → SameView (over b s) (over b t)
    → SameView (over b s) (over b u)
unfolding StackState.basic StackState.code StackState.deleted known_basic known_code
commit-SameView b s t u (err x) p h v =
    Back-SameView b s (exit_commit-Back s.top s.parents t u p x h)
commit-SameView b s t u (ok _) p h v = afterwards v record {
  basic = λ a. rw ((exit_commit-known t u a h).0) refl;
  code = λ a. rw ((exit_commit-known t u a h).0) refl;
  deleted = λ a. (exit_commit-known t u a h).1;
  logs = (exit_commit-known t u [] h).2;
}

static_inside : {c : Bool} (i : Bool) → c ≡ true → (i || c) ≡ true
static_inside i e = ground arith

module _ ⦃U : U256Ops⦄ {b : Backend} where
  entered :
      {c : Bool} (s t : MemoryStackSubstate) (g : ℕ) (i : Bool)
      → Run b c (enter s g i) t
      → t.parents ≡ s.top ∷ s.parents
  unfolding enter
  entered s t g i r = (Run-Inside r).parents

  Step-SameView :
      {s t : MemoryStackSubstate}
      → HasFunds (over b s)
      → Step b true s t
      → SameView (over b s) (over b t)
  unfolding StackState.touch StackState.transfer StackState.changed
  Step-SameView funds (Step.metadata _ s m h) = metadata-SameView b s m
  Step-SameView funds (Step.touch _ s a) = touch-SameView (over b s) a
  Step-SameView funds (Step.transfer_nothing _ s t h) = transfer-SameView (over b s) t funds h

  -- A run in a static substate, where every balance fits a `U256`, changes no balance, nonce, code,
  -- deletion or log that is seen.
  pub Run-SameView :
      {c : Bool} {s t : MemoryStackSubstate}
      → c ≡ true
      → HasFunds (over b s)
      → Run b c s t
      → SameView (over b s) (over b t)
  Run-SameView e funds (Run.done _ s) = same (over b s)
  Run-SameView e funds (Run.step {s} {t} st r) =
      let v = Step-SameView funds (subst (λ c. Step b c s t) e st) in
      afterwards v (Run-SameView e (HasFunds-SameView v funds) r)
  Run-SameView e funds (Run.committed {s} {t} {u} g i q r h k) =
      let w = enter-SameView b s g i in
      let v = afterwards w (Run-SameView (static_inside i e) (HasFunds-SameView w funds) r) in
      let x = commit-SameView b s t u q (entered s t g i r) h v in
      afterwards x (Run-SameView e (HasFunds-SameView x funds) k)
  Run-SameView e funds (Run.reverted {s} {t} {u} g i q r h k) =
      let x = Back-SameView b s (exit_revert-Back s.top s.parents t u (entered s t g i r) q h) in
      afterwards x (Run-SameView e (HasFunds-SameView x funds) k)
  Run-SameView e funds (Run.discarded {s} {t} {u} g i q r h k) =
      let x = Back-SameView b s (exit_discard-Back s.top s.parents t u (entered s t g i r) q h) in
      afterwards x (Run-SameView e (HasFunds-SameView x funds) k)

-- What is gone through from a static state leaves everything as it is seen.
pub Nested-SameView :
    ⦃U : U256Ops⦄ (s t : MemoryStackState)
    → static_state s ≡ true
    → HasFunds s
    → Nested s t
    → SameView s t
Nested-SameView s t e funds n =
    subst (λ b. SameView s (over b t.substate)) (sym n.backend) (Run-SameView e funds n.run)
