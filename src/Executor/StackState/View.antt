-- ===== src/Executor/StackState/View.antt =====
-- src/executor/stack/state.rs: what the operations of a state change of its view as a backend.
use sputnikvm.Base.{ℕ, ◌&&◌, List, some, unwrap_or, ◌≡◌, refl, ap, if◌then◌else◌, arith}
use sputnikvm.Base.Key.{bytes_eq, bytes_eq_iff, bytes_key}
use sputnikvm.PrimitiveTypes.{H160, H256, zero_h256}
use sputnikvm.Backend.{Basic}
use sputnikvm.Executor.State.{MemoryStackAccount}
use sputnikvm.Executor.State.Known.{known_basic, known_code}
use sputnikvm.Executor.State.Change as Change
use sputnikvm.Executor.State.Change.Effect.{
  account_at, account_mut_known, update-known_account, update-known_storage,
  reset_storage-known_storage, set_storage-known_storage,
}
use sputnikvm.Executor.StackState.{
  MemoryStackState, basic, code, storage, set_storage, reset_storage, set_code,
}

-- A change of one account.
abbrev pub update :
    MemoryStackState → H160 → (MemoryStackAccount → MemoryStackAccount) → MemoryStackState
update s a f = record s { substate = Change.update s.substate a s.backend f }

pub account_at_basic :
    (s : MemoryStackState) (a : H160) → (account_at s.substate a s.backend).basic ≡ basic s a
unfolding basic
account_at_basic s a = (account_mut_known s.substate a s.backend).0

-- What `f` makes of the basic information.
pub update-basic :
    (s : MemoryStackState) (a j : H160) (f : MemoryStackAccount → MemoryStackAccount)
    (g : Basic → Basic)
    → ((account : MemoryStackAccount) → (f account).basic ≡ g account.basic)
    → basic (update s a f) j ≡ (if bytes_eq a j then g (basic s a) else basic s j)
unfolding basic known_basic
update-basic s a j f g h = ground (
  arith,
  update-known_account s.substate a j s.backend f,
  h (account_at s.substate a s.backend),
  account_at_basic s a,
)

-- A change of an account that keeps its code leaves the code as it is seen.
pub update-code :
    (s : MemoryStackState) (a j : H160) (f : MemoryStackAccount → MemoryStackAccount)
    → ((account : MemoryStackAccount) → (f account).code ≡ account.code)
    → code (update s a f) j ≡ code s j
unfolding code known_code
update-code s a j f h = ground (
  arith,
  update-known_account s.substate a j s.backend f,
  h (account_at s.substate a s.backend),
  account_mut_known s.substate a s.backend,
  bytes_eq_iff a j,
)

-- A change of an account that does not reset it leaves every storage as it is seen.
pub update-storage :
    (s : MemoryStackState) (a j : H160) (k : H256) (f : MemoryStackAccount → MemoryStackAccount)
    → ((account : MemoryStackAccount) → (f account).reset ≡ account.reset)
    → storage (update s a f) j k ≡ storage s j k
unfolding storage
update-storage s a j k f h =
    ap (λ o. unwrap_or o (s.backend.storage j k))
      (update-known_storage s.substate a j k s.backend f h)

-- After a value has been set, its place has it, and every other place has the value that it had.
pub set_storage-storage :
    (s : MemoryStackState) (a j : H160) (k l v : H256)
    → storage (set_storage s a k v) j l
      ≡ (if bytes_eq a j && bytes_eq k l then v else storage s j l)
unfolding storage set_storage
set_storage-storage s a j k l v = ground (arith, set_storage-known_storage s.substate a j k l v)

-- After the storage of an account has been reset, every place of it is zero, whatever the parents and the
-- backend have, and every place of another account has the value that it had.
pub reset_storage-storage :
    (s : MemoryStackState) (a j : H160) (k : H256)
    → storage (reset_storage s a) j k ≡ (if bytes_eq a j then zero_h256 else storage s j k)
unfolding storage reset_storage
reset_storage-storage s a j k =
    ground (arith, reset_storage-known_storage s.substate a j k s.backend)

-- After code has been set, its account has that code, and no other code, no balance, no nonce and no
-- place of a storage is seen to change.
pub set_code-code :
    (s : MemoryStackState) (a j : H160) (c : List ℕ) (k : H256)
    → (code (set_code s a c) j ≡ (if bytes_eq a j then c else code s j))
      × (basic (set_code s a c) j ≡ basic s j)
      × (storage (set_code s a c) j k ≡ storage s j k)
unfolding set_code Change.set_code code known_code
set_code-code s a j c k =
    let f : MemoryStackAccount → MemoryStackAccount = λ account. record account { code = some c } in
    (
      ground (arith, update-known_account s.substate a j s.backend f),
      ground (arith, update-basic s a j f (λ b. b) (λ account. refl), bytes_eq_iff a j),
      update-storage s a j k f (λ account. refl),
    )

-- After a value has been set, its place has it, and every other place the value that it had. After the
-- storage of an account has been reset, every place of it is zero, whatever the parents and the backend
-- have, and every place of another account has the value that it had.
pub storage_writes :
    (s : MemoryStackState) (a j : H160) (k l v : H256)
    → (storage (set_storage s a k v) j l
        ≡ (if bytes_eq a j && bytes_eq k l then v else storage s j l))
      × (storage (reset_storage s a) j l ≡ (if bytes_eq a j then zero_h256 else storage s j l))
storage_writes s a j k l v = (set_storage-storage s a j k l v, reset_storage-storage s a j l)
