-- ===== src/Core/Stack.antt =====
-- core/src/stack.rs: the bounded stack of the EVM. The top of the stack is the last item of `data`.
pub mod View
pub mod Bounds
pub mod Under
use sputnikvm.Base.{
  ℕ, ◌+◌, ◌-◌, Bool, Option, none, some, List, [], ◌∷◌, ◌++◌, ok, err, ok_or, ltb, if◌then◌else◌,
  length, get_or, set as list_set,
}
use sputnikvm.Base.Result.{Result}
use sputnikvm.PrimitiveTypes.{H256, zero_h256}
use sputnikvm.Core.Error.{ExitError, stack_underflow, stack_overflow}

pub record Stack : Type 0 where
  pub data_items : List H256
  pub limit : ℕ

unfoldable pub new : ℕ → Stack
new limit = record { data_items = []; limit = limit }

pub len : Stack → ℕ
len s = length s.data_items

-- `Vec::pop`: the last item, and the items before it.
vec_pop : List H256 → Option H256 × List H256
vec_pop [] = (none, [])
vec_pop (x ∷ []) = (some x, [])
vec_pop (x ∷ y ∷ ys) = let (o, rest) = vec_pop (y ∷ ys) in (o, x ∷ rest)

pub pop : Stack → Result ExitError H256 × Stack
pop s =
    let (o, rest) = vec_pop s.data_items in
    (ok_or o stack_underflow, record s { data_items = rest })

unfoldable pub push : Stack → H256 → Result ExitError (Unit {0}) × Stack
push s value =
    if ltb s.limit (length s.data_items + 1)
    then (err stack_overflow, s)
    else (ok tt, record s { data_items = s.data_items ++ (value ∷ []) })

-- The guard keeps the index in range.
pub peek : Stack → ℕ → Result ExitError H256
peek s no_from_top =
    if ltb no_from_top (length s.data_items)
    then ok (get_or s.data_items (length s.data_items - no_from_top - 1) zero_h256)
    else err stack_underflow

pub set : Stack → ℕ → H256 → Result ExitError (Unit {0}) × Stack
set s no_from_top val =
    if ltb no_from_top (length s.data_items)
    then (
      ok tt,
      record s { data_items = list_set s.data_items (length s.data_items - no_from_top - 1) val },
    )
    else (err stack_underflow, s)
