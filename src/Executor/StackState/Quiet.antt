-- ===== src/Executor/StackState/Quiet.antt =====
-- src/executor/stack/state.rs: what is seen through the operations that a static state allows.
pub mod Runs
pub mod Undone
use sputnikvm.Base.{
  ℕ, ◌<◌, ◌≤◌, ◌-◌, ◌+◌, min, Bool, true, List, ok, err, ltb, ◌≡◌, refl, sym, ap, ◌∙◌,
  if◌then◌else◌, Bool-cases, inl, inr, arith,
}
use sputnikvm.Base.Key.{bytes_eq, bytes_eq_iff}
use sputnikvm.PrimitiveTypes.{U256Ops, H160, u256_mod}
use sputnikvm.Runtime.Context.{Transfer, MovesNothing}
use sputnikvm.Backend.{Basic, Log}
use sputnikvm.Executor.State.Known.{frames, known_code}
use sputnikvm.Executor.State.Commit.{all_logs}
use sputnikvm.Executor.State.Change as Change
use sputnikvm.Executor.State.Change.Funds as Funds
use sputnikvm.Executor.State.Change.Effect.{
  account_mut_known, touch_rest, update_rest, touch-known_account, touch-deleted, update-deleted,
}
use sputnikvm.Executor.StackState as StackState
use sputnikvm.Executor.StackState.{MemoryStackState, basic, code, deleted, touch, transfer}
use sputnikvm.Executor.StackState.View.{update, update-code}
use sputnikvm.Executor.StackState.Balance.{
  touch-basic, transfer-basic, transfer-deleted, transfer_lem,
}

-- Every account is seen with the balance, the nonce, the code and the deletion that it had, and the logs are
-- those that there were.
pub record SameView (s t : MemoryStackState) : Type 0 where
  pub basic : (a : H160) → StackState.basic t a ≡ StackState.basic s a
  pub code : (a : H160) → StackState.code t a ≡ StackState.code s a
  pub deleted : (a : H160) → StackState.deleted t a ≡ StackState.deleted s a
  pub logs : all_logs (frames t.substate) ≡ all_logs (frames s.substate)

-- Every balance fits a `U256`.
abbrev pub HasFunds : MemoryStackState → Type 0
HasFunds s = (a : H160) → (basic s a).balance < u256_mod

pub same : (s : MemoryStackState) → SameView s s
same s = record { basic = λ a. refl; code = λ a. refl; deleted = λ a. refl; logs = refl }

pub afterwards : {s t u : MemoryStackState} → SameView s t → SameView t u → SameView s u
afterwards v w = record {
  basic = λ a. w.basic a ∙ v.basic a;
  code = λ a. w.code a ∙ v.code a;
  deleted = λ a. w.deleted a ∙ v.deleted a;
  logs = w.logs ∙ v.logs;
}

pub HasFunds-SameView : {s t : MemoryStackState} → SameView s t → HasFunds s → HasFunds t
HasFunds-SameView v h a = rw (v.basic a) (h a)

touch-code : (s : MemoryStackState) (a j : H160) → code (touch s a) j ≡ code s j
unfolding code touch known_code
touch-code s a j = ground (
  arith,
  touch-known_account s.substate a j s.backend,
  account_mut_known s.substate a s.backend,
  bytes_eq_iff a j,
)

touch-logs :
    (s : MemoryStackState) (a : H160)
    → all_logs (frames (touch s a).substate) ≡ all_logs (frames s.substate)
unfolding touch
touch-logs s a = ap (λ t. all_logs (frames t)) (touch_rest s.substate a s.backend)

update-logs :
    (s : MemoryStackState) (a : H160) (f : _)
    → all_logs (frames (update s a f).substate) ≡ all_logs (frames s.substate)
update-logs s a f = ap (λ t. all_logs (frames t)) (update_rest s.substate a s.backend f)

pub touch-SameView : (s : MemoryStackState) (a : H160) → SameView s (touch s a)
unfolding deleted touch
touch-SameView s a = record {
  basic = touch-basic s a;
  code = touch-code s a;
  deleted = λ j. touch-deleted s.substate a j s.backend;
  logs = touch-logs s a;
}

module _ ⦃U : U256Ops⦄ where
  transfer-code :
      (s : MemoryStackState) (t : Transfer) (j : H160) → code (transfer s t).1 j ≡ code s j
  transfer-code s t j =
      rw (transfer_lem s t) (elim (Bool-cases (ltb (basic s t.source).balance t.value)) [
        | inl e ↦ rw e (touch-code s t.source j)
        | inr e ↦ rw e (
            update-code (update s t.source (Funds.less t.value)) t.target j (Funds.more t.value)
              (λ account. refl)
            ∙ update-code s t.source j (Funds.less t.value) (λ account. refl))
      ])

  transfer-logs :
      (s : MemoryStackState) (t : Transfer)
      → all_logs (frames (transfer s t).1.substate) ≡ all_logs (frames s.substate)
  transfer-logs s t =
      rw (transfer_lem s t) (elim (Bool-cases (ltb (basic s t.source).balance t.value)) [
        | inl e ↦ rw e (touch-logs s t.source)
        | inr e ↦ rw e (
            update-logs (update s t.source (Funds.less t.value)) t.target (Funds.more t.value)
            ∙ update-logs s t.source (Funds.less t.value))
      ])

  nothing-basic :
      (s : MemoryStackState) (t : Transfer) (j : H160)
      → HasFunds s
      → MovesNothing t
      → basic (transfer s t).1 j ≡ basic s j
  nothing-basic s t j funds (inl h) = ground (arith, transfer-basic s t j, funds j, h)
  nothing-basic s t j funds (inr h) =
      ground
        (arith, transfer-basic s t j, funds j, h, bytes_eq_iff t.source j, bytes_eq_iff t.target j)

  pub transfer-SameView :
      (s : MemoryStackState) (t : Transfer)
      → HasFunds s
      → MovesNothing t
      → SameView s (transfer s t).1
  transfer-SameView s t funds h = record {
    basic = λ j. nothing-basic s t j funds h;
    code = transfer-code s t;
    deleted = transfer-deleted s t;
    logs = transfer-logs s t;
  }
