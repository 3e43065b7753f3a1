-- ===== src/Executor/StackState/Empty.antt =====
-- src/executor/stack/state.rs: when a state takes an account for empty.
use sputnikvm.Base.{
  ℕ, Bool, true, false, ◌&&◌, not, List, Option, none, some, ◌==◌, length, ◌≡◌, arith,
}
use sputnikvm.PrimitiveTypes.{H160}
use sputnikvm.Backend.{Basic}
use sputnikvm.Executor.State.{MemoryStackAccount}
use sputnikvm.Executor.State.Known.{known_account, known_basic, known_code, known_empty}
use sputnikvm.Executor.StackState.{MemoryStackState, basic, code, backend_is_empty, is_empty}

-- No balance, no nonce and no code, by what is seen of the account.
abbrev pub seen_empty : MemoryStackState → H160 → Bool
seen_empty s a = ((basic s a).balance == 0) && ((basic s a).nonce == 0) && (length (code s a) == 0)

-- An account that a substate has recorded without code, that has no balance and no nonce any more, and
-- that had one of them in the backend.
abbrev drained_account : Option MemoryStackAccount → Basic → Bool
drained_account none b = false
drained_account (some account) b =
    (account.basic.balance == 0)
    && (account.basic.nonce == 0)
    && no_code account.code
    && not ((b.balance == 0) && (b.nonce == 0))
  where
    no_code : Option (List ℕ) → Bool
    no_code none = true
    no_code (some c) = false

abbrev pub drained : MemoryStackState → H160 → Bool
drained s a = drained_account (known_account s.substate a) (s.backend.basic a)

-- A state takes an account for empty if it is seen to have no balance, no nonce and no code, unless it is
-- drained: recorded without code, with no balance and no nonce, over a backend where it has one of them.
pub is_empty_lem :
    (s : MemoryStackState) (a : H160) → is_empty s a ≡ (seen_empty s a && not (drained s a))
unfolding is_empty backend_is_empty basic code known_basic known_code known_empty
is_empty_lem s a = ground arith
