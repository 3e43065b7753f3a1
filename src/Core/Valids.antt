-- ===== src/Core/Valids.antt =====
-- core/src/valids.rs: the positions of a code that a jump may go to.
pub mod Boundary
use sputnikvm.Base.{
  ℕ, zero, suc, ◌+◌, Bool, true, false, not, Option, none, some, List, ltb, leb, ◌==◌,
  if◌then◌else◌, length, get_or, set, replicate,
}
use sputnikvm.Core.Opcode
use sputnikvm.Core.Opcode.{is_push}

pub record Valids : Type 0 where
  pub flags : List Bool

-- How far the scan moves on from an opcode.
skip : Option ℕ → ℕ
skip none = 1
skip (some v) = v + 1

-- The loop at index `i`. Each round moves on by one at least, so that as much fuel as there are bytes
-- left is enough.
scan : List ℕ → ℕ → ℕ → List Bool → List Bool
unfolding skip is_push
scan code zero i valids = valids
scan code (suc fuel) i valids =
    let opcode = get_or code i 0 in
    let is_dest = opcode == Opcode.jumpdest in
    let rest =
      scan code fuel (if is_dest then i + 1 else i + skip (is_push opcode))
        (if is_dest then set valids i true else valids) in
    if ltb i (length code) then rest else valids

pub new : List ℕ → Valids
new code = record { flags = scan code (length code) 0 (replicate (length code) false) }

pub len : Valids → ℕ
len v = length v.flags

pub is_empty : Valids → Bool
is_empty v = len v == 0

pub is_valid : Valids → ℕ → Bool
is_valid v position =
    if leb (length v.flags) position
    then false
    else if not (get_or v.flags position false)
    then false
    else true
