-- ===== src/Executor/State/Change/Effect.antt =====
-- src/executor/stack/state.rs: what is known after a change of an account.
use sputnikvm.Base.{
  true, Option, none, some, ◌≡◌, refl, ap, ◌&&◌, ◌||◌, if◌then◌else◌, arith, unwrap_or,
}
use sputnikvm.Base.Key.{bytes_eq, bytes_eq_iff, bytes_key, pair_key}
use sputnikvm.Base.Map
use sputnikvm.PrimitiveTypes.{H160, H256, zero_h256}
use sputnikvm.Backend.{Backend}
use sputnikvm.Executor.State.{MemoryStackAccount, MemoryStackSubstate}
use sputnikvm.Executor.State.Known.{
  known_account, known_account_in, known_basic, known_code, known_storage, known_storage_in,
  deleted, deleted_in, is_reset,
}
use sputnikvm.Executor.State.Change.Keeps.{touch-Keeps, update-Keeps}
use sputnikvm.Executor.State.Change.{
  fresh, put_account, account_or_insert, account_mut, update, touch, reset_storage, remove_storage,
  set_storage, set_deleted,
}

-- The account that `account_mut` finds in the current frame or makes.
abbrev pub account_at : MemoryStackSubstate → H160 → Backend → MemoryStackAccount
account_at s a b = (account_mut s a b).0

-- It has the basic information and the code that are known, and it is reset where the current frame has
-- it so.
pub account_mut_known :
    (s : MemoryStackSubstate) (a : H160) (b : Backend)
    → ((account_at s a b).basic ≡ unwrap_or (known_basic s a) (b.basic a))
      × ((account_at s a b).code ≡ known_code s a)
      × ((account_at s a b).reset ≡ is_reset (Map.get s.top.accounts a))
unfolding account_mut account_or_insert fresh known_basic known_code known_account known_account_in
account_mut_known s a b = ground arith

pub get-touch :
    (s : MemoryStackSubstate) (a j : H160) (b : Backend)
    → Map.get (touch s a b).top.accounts j
      ≡ (if bytes_eq a j then some (account_at s a b) else Map.get s.top.accounts j)
unfolding touch account_mut account_or_insert put_account
get-touch s a j b = inserted (Map.get s.top.accounts a) refl
  where
    inserted :
        (o : Option MemoryStackAccount)
        → Map.get s.top.accounts a ≡ o
        → Map.get (account_or_insert s a b o).1.top.accounts j
          ≡ (if bytes_eq a j then some (account_or_insert s a b o).0 else Map.get s.top.accounts j)
    inserted none e = Map.get-insert s.top.accounts a j _
    inserted (some account) e = ground (arith, bytes_eq_iff a j)

pub get-update :
    (s : MemoryStackSubstate) (a j : H160) (b : Backend)
    (f : MemoryStackAccount → MemoryStackAccount)
    → Map.get (update s a b f).top.accounts j
      ≡ (if bytes_eq a j then some (f (account_at s a b)) else Map.get s.top.accounts j)
unfolding update put_account touch
get-update s a j b f =
    ground (
      arith,
      Map.get-insert (touch s a b).top.accounts a j (f (account_at s a b)),
      get-touch s a j b,
    )

pub touch-known_account :
    (s : MemoryStackSubstate) (a j : H160) (b : Backend)
    → known_account (touch s a b) j
      ≡ (if bytes_eq a j then some (account_at s a b) else known_account s j)
unfolding known_account known_account_in
touch-known_account s a j b = rw ((touch-Keeps s a b).parents) (ground (arith, get-touch s a j b))

pub update-known_account :
    (s : MemoryStackSubstate) (a j : H160) (b : Backend)
    (f : MemoryStackAccount → MemoryStackAccount)
    → known_account (update s a b f) j
      ≡ (if bytes_eq a j then some (f (account_at s a b)) else known_account s j)
unfolding known_account known_account_in
update-known_account s a j b f =
    rw ((update-Keeps s a b f).parents) (ground (arith, get-update s a j b f))

abbrev pub with_accounts :
    MemoryStackSubstate → Map.Map H160 MemoryStackAccount → MemoryStackSubstate
with_accounts s accounts = record s { top = record s.top { accounts = accounts } }

-- Only the accounts of the current frame change.
pub touch_rest :
    (s : MemoryStackSubstate) (a : H160) (b : Backend)
    → touch s a b ≡ with_accounts s (touch s a b).top.accounts
unfolding touch account_mut account_or_insert put_account
touch_rest s a b = inserted (Map.get s.top.accounts a)
  where
    inserted :
        (o : Option MemoryStackAccount)
        → (account_or_insert s a b o).1 ≡ with_accounts s (account_or_insert s a b o).1.top.accounts
    inserted none = refl
    inserted (some account) = refl

pub update_rest :
    (s : MemoryStackSubstate) (a : H160) (b : Backend) (f : MemoryStackAccount → MemoryStackAccount)
    → update s a b f ≡ with_accounts s (update s a b f).top.accounts
unfolding update put_account touch
update_rest s a b f =
    ap (λ t. with_accounts t (Map.insert (touch s a b).top.accounts a (f (account_at s a b))))
      (touch_rest s a b)

pub update-storages :
    (s : MemoryStackSubstate) (a : H160) (b : Backend) (f : MemoryStackAccount → MemoryStackAccount)
    → (update s a b f).top.storages ≡ s.top.storages
update-storages s a b f = ap (λ t. t.top.storages) (update_rest s a b f)

-- A change that does not reset the account leaves every storage as it is known.
pub update-known_storage :
    (s : MemoryStackSubstate) (a j : H160) (k : H256) (b : Backend)
    (f : MemoryStackAccount → MemoryStackAccount)
    → ((account : MemoryStackAccount) → (f account).reset ≡ account.reset)
    → known_storage (update s a b f) j k ≡ known_storage s j k
unfolding known_storage known_storage_in
update-known_storage s a j k b f kept =
    rw ((update-Keeps s a b f).parents, update-storages s a b f)
      (ground (
        arith,
        get-update s a j b f,
        kept (account_at s a b),
        account_mut_known s a b,
        bytes_eq_iff a j,
      ))

-- After a reset of the storage of an account, every place of it is known to be zero, and the other
-- accounts are as they were.
pub reset_storage-known_storage :
    (s : MemoryStackSubstate) (a j : H160) (k : H256) (b : Backend)
    → known_storage (reset_storage s a b) j k
      ≡ (if bytes_eq a j then some zero_h256 else known_storage s j k)
unfolding known_storage known_storage_in reset_storage remove_storage
reset_storage-known_storage s a j k b =
    let t = remove_storage s a in
    let f : MemoryStackAccount → MemoryStackAccount = λ account. record account { reset = true } in
    rw ((update-Keeps t a b f).parents, update-storages t a b f)
      (ground (
        arith,
        get-update t a j b f,
        Map.get-remove_all-keys_with (λ i. bytes_eq i.0 a) s.top.storages (j, k),
        bytes_eq_iff a j,
        bytes_eq_iff j a,
      ))

pub set_storage-known_storage :
    (s : MemoryStackSubstate) (a j : H160) (k l v : H256)
    → known_storage (set_storage s a k v) j l
      ≡ (if bytes_eq a j && bytes_eq k l then some v else known_storage s j l)
unfolding known_storage known_storage_in set_storage
set_storage-known_storage s a j k l v =
    ground (arith, Map.get-insert s.top.storages (a, k) (j, l) v)

-- What a change of the accounts leaves deleted.
with_accounts-deleted :
    (s t : MemoryStackSubstate) (j : H160)
    → t.parents ≡ s.parents
    → t ≡ with_accounts s t.top.accounts
    → deleted t j ≡ deleted s j
unfolding deleted deleted_in
with_accounts-deleted s t j p e = rw (p, ap (λ u. u.top.deletes) e) refl

pub touch-deleted :
    (s : MemoryStackSubstate) (a j : H160) (b : Backend) → deleted (touch s a b) j ≡ deleted s j
touch-deleted s a j b =
    with_accounts-deleted s (touch s a b) j ((touch-Keeps s a b).parents) (touch_rest s a b)

pub update-deleted :
    (s : MemoryStackSubstate) (a j : H160) (b : Backend)
    (f : MemoryStackAccount → MemoryStackAccount)
    → deleted (update s a b f) j ≡ deleted s j
update-deleted s a j b f =
    with_accounts-deleted s (update s a b f) j ((update-Keeps s a b f).parents)
      (update_rest s a b f)

pub set_deleted-deleted :
    (s : MemoryStackSubstate) (a j : H160)
    → deleted (set_deleted s a) j ≡ (bytes_eq a j || deleted s j)
unfolding deleted deleted_in set_deleted
set_deleted-deleted s a j = ground (
  arith,
  Map.get-insert s.top.deletes a j tt,
  Map.contains_key_lem s.top.deletes j,
  Map.contains_key_lem (Map.insert s.top.deletes a tt) j,
)

pub touch-storages :
    (s : MemoryStackSubstate) (a : H160) (b : Backend) → (touch s a b).top.storages ≡ s.top.storages
touch-storages s a b = ap (λ t. t.top.storages) (touch_rest s a b)

pub touch-deletes :
    (s : MemoryStackSubstate) (a : H160) (b : Backend) → (touch s a b).top.deletes ≡ s.top.deletes
touch-deletes s a b = ap (λ t. t.top.deletes) (touch_rest s a b)
