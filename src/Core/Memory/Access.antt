-- ===== src/Core/Memory/Access.antt =====
-- What reading and writing a region of memory do, byte by byte.
use sputnikvm.Base.{
  ℕ, zero, suc, ◌+◌, ◌%◌, ◌≤◌, ◌<◌, ◌≡◌, refl, sym, ap, ◌∙◌, List, ltb, if◌then◌else◌, length,
  get_or, set as list_set, replicate, length-set, length-replicate, get_or-set_self, get_or-set_ne,
  get_or_past, get_or-replicate, arith,
}
use native.Mathlib.Nat.{mod-eq_of_lt}
use native.Mathlib.Decide.{dec_lt, ℕ_discrete}
use sputnikvm.PrimitiveTypes.{u64_mod}
use sputnikvm.Core.Memory.{Memory, get_loop, get}

-- The byte at a position; past the end of the bytes it is 0.
abbrev pub byte_at : List ℕ → ℕ → ℕ
byte_at bytes p = get_or bytes p 0

length-get_loop :
    (bytes : List ℕ) (offset left index : ℕ) (ret : List ℕ)
    → length (get_loop bytes offset left index ret) ≡ length ret
unfolding get_loop
length-get_loop bytes offset zero index ret = refl
length-get_loop bytes offset (suc left) index ret = ground (
  arith,
  length-get_loop bytes offset left (index + 1)
      (list_set ret index (byte_at bytes ((offset + index) % u64_mod))),
  length-set ret index (byte_at bytes ((offset + index) % u64_mod)),
)

-- One round of the loop of `get`.
get_loop-suc :
    (bytes : List ℕ) (offset left index : ℕ) (ret : List ℕ)
    → offset + index < u64_mod
    → offset + index < length bytes
    → get_loop bytes offset (suc left) index ret
      ≡ get_loop bytes offset left (index + 1) (list_set ret index (byte_at bytes (offset + index)))
unfolding get_loop
get_loop-suc bytes offset left index ret fits inside = rw (mod-eq_of_lt fits) (ground arith)

get_loop_past :
    (bytes : List ℕ) (offset left index : ℕ) (ret : List ℕ)
    → offset + index < u64_mod
    → length bytes ≤ offset + index
    → get_loop bytes offset left index ret ≡ ret
unfolding get_loop
get_loop_past bytes offset zero index ret fits past = refl
get_loop_past bytes offset (suc left) index ret fits past = rw (mod-eq_of_lt fits) (ground arith)

-- Writing at `index` what is wanted there moves the border between old and wanted bytes on by one.
next_round :
    (j index : ℕ) (ret : List ℕ) (v w : ℕ)
    → index < length ret
    → (j ≡ index → v ≡ w)
    → (if ltb j (index + 1) then byte_at (list_set ret index v) j else w)
      ≡ (if ltb j index then byte_at ret j else w)
next_round j index ret v w inside wanted = elim (ℕ_discrete index j) [
  | yes e ↦ ground (arith, get_or-set_self ret index v 0, ap (byte_at (list_set ret index v)) e)
  | no ne ↦ ground (arith, get_or-set_ne ret index j v 0 ne)
]

module _ (bytes : List ℕ) (offset : ℕ) (small : length bytes < u64_mod) where
  get_loop_lem :
      (left index j : ℕ) (ret : List ℕ)
      → offset + index < u64_mod
      → length ret ≡ index + left
      → ((k : ℕ) → index ≤ k → byte_at ret k ≡ 0)
      → j < index + left
      → byte_at (get_loop bytes offset left index ret) j
        ≡ (if ltb j index then byte_at ret j else byte_at bytes (offset + j))
  get_loop_lem zero index j ret fits same zeros below = unfold get_loop in ground arith
  get_loop_lem (suc left) index j ret fits same zeros below =
      elim (dec_lt (offset + index) (length bytes)) [
        | no past ↦
            rw (get_loop_past bytes offset (suc left) index ret fits (omega arith))
              (ground (arith, zeros j, get_or_past bytes (offset + j) 0))
        | yes inside ↦ rw (get_loop-suc bytes offset left index ret fits inside) (
            get_loop_lem left (index + 1) j (list_set ret index (byte_at bytes (offset + index)))
              (omega arith) (omega (arith, length-set ret index (byte_at bytes (offset + index))))
              (λ k above.
                get_or-set_ne ret index k (byte_at bytes (offset + index)) 0 (omega arith)
                ∙ zeros k (omega arith))
              (omega arith)
            ∙ next_round j index ret (byte_at bytes (offset + index)) (byte_at bytes (offset + j))
                (omega arith) (λ e. ap (λ k. byte_at bytes (offset + k)) (sym e)))
      ]

-- For an offset and a memory length that are `usize`s, `get` returns `size` bytes, the ones that stand in
-- the memory from `offset` on, with 0 for each byte past its end, also where the range runs past the
-- largest `usize`.
pub get_lem :
    (m : Memory) (offset size : ℕ)
    → offset < u64_mod
    → length m.bytes < u64_mod
    → (length (get m offset size) ≡ size)
      × ((i : ℕ) → i < size → byte_at (get m offset size) i ≡ byte_at m.bytes (offset + i))
unfolding get
get_lem m offset size ho small = (
  length-get_loop m.bytes offset size 0 (replicate size 0) ∙ length-replicate size 0,
  λ i below.
      get_loop_lem m.bytes offset small size 0 i (replicate size 0) (omega arith)
        (omega (arith, length-replicate {A = ℕ} size 0)) (λ k _. get_or-replicate size k 0)
        (omega arith)
      ∙ ground arith,
)
