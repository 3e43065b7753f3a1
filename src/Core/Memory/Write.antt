-- ===== src/Core/Memory/Write.antt =====
-- What writing a region of memory does, byte by byte.
use sputnikvm.Base.{
  ℕ, zero, suc, ◌+◌, ◌-◌, ◌≤◌, ◌<◌, ◌≡◌, refl, ap, ◌∙◌, false, get_or_ext, ◌⊎◌, inl, inr, ◌&&◌,
  List, [], ◌∷◌, ok, err, none, some, ltb, leb, ◌==◌, if◌then◌else◌, length, set as list_set, take,
  replicate, max, length-set, length-append, length-take, length-replicate, get_or-set_self,
  get_or-set_ne, get_or_past, get_elem?, get_elem?-eq-get_or, get_or-replicate, arith, le→ltb,
}
use native.Mathlib.Nat.{sub-zero, suc-sub-suc}
use native.Mathlib.Decide.{dec_le, dec_lt, ℕ_discrete}
use sputnikvm.PrimitiveTypes.{usize_max}
use sputnikvm.Core.Error.{not_supported}
use sputnikvm.Core.Memory.{Memory, resize, get, store, set_loop, finish, write, set, get_loop}
use sputnikvm.Core.Memory.Access.{byte_at, get_lem}

-- What the loop of `set` writes, where it stays in range: the bytes of the value, and 0 past its end.
abbrev fill : ℕ → List ℕ → ℕ → ℕ → List ℕ → List ℕ
fill offset value zero index bytes = bytes
fill offset value (suc left) index bytes =
    fill offset value left (index + 1) (list_set bytes (offset + index) (byte_at value index))

length-fill :
    (offset : ℕ) (value : List ℕ) (left index : ℕ) (bytes : List ℕ)
    → length (fill offset value left index bytes) ≡ length bytes
length-fill offset value zero index bytes = refl
length-fill offset value (suc left) index bytes =
    length-fill offset value left (index + 1) _
    ∙ length-set bytes (offset + index) (byte_at value index)

-- One round of the loop stays in range, and writes the byte of the value, or 0 past the end of the value.
store_round :
    (offset : ℕ) (value : List ℕ) (index : ℕ) (bytes : List ℕ)
    → offset + index < length bytes
    → store bytes (offset + index) (
        if ltb (offset + index) (length bytes) && ltb index (length value)
        then get_elem? value index
        else some 0)
      ≡ some (list_set bytes (offset + index) (byte_at value index))
unfolding store
store_round offset value index bytes inside = elim (dec_lt index (length value)) [
  | yes below ↦ rw (get_elem?-eq-get_or value index 0 below, store) (ground arith)
  | no past ↦ rw (get_or_past value index 0 (omega arith)) (ground arith)
]

-- In range, no index of the loop panics.
set_loop-eq :
    (offset : ℕ) (value : List ℕ) (left index : ℕ) (bytes : List ℕ)
    → offset + (index + left) ≤ length bytes
    → set_loop offset value left index bytes ≡ some (fill offset value left index bytes)
unfolding set_loop
set_loop-eq offset value zero index bytes fits = refl
set_loop-eq offset value (suc left) index bytes fits =
    rw (store_round offset value index bytes (omega arith), set_loop)
      (set_loop-eq offset value left (index + 1)
        (list_set bytes (offset + index) (byte_at value index))
        (omega (arith, length-set bytes (offset + index) (byte_at value index))))

next_write :
    (offset : ℕ) (value : List ℕ) (left index p : ℕ) (bytes : List ℕ)
    → offset + index < length bytes
    → (if leb (offset + (index + 1)) p && ltb p (offset + (index + 1 + left))
        then byte_at value (p - offset)
        else byte_at (list_set bytes (offset + index) (byte_at value index)) p)
      ≡ (if leb (offset + index) p && ltb p (offset + (index + suc left))
          then byte_at value (p - offset)
          else byte_at bytes p)
next_write offset value left index p bytes inside = elim (ℕ_discrete (offset + index) p) [
  | yes e ↦
      let back : p - offset ≡ index = omega arith in
      rw back (
        ground (
          arith,
          get_or-set_self bytes (offset + index) (byte_at value index) 0,
          ap (byte_at (list_set bytes (offset + index) (byte_at value index))) e,
        ))
  | no ne ↦ ground (arith, get_or-set_ne bytes (offset + index) p (byte_at value index) 0 ne)
]

fill_lem :
    (offset : ℕ) (value : List ℕ) (left index p : ℕ) (bytes : List ℕ)
    → offset + (index + left) ≤ length bytes
    → byte_at (fill offset value left index bytes) p ≡ (
        if leb (offset + index) p && ltb p (offset + (index + left))
        then byte_at value (p - offset)
        else byte_at bytes p)
fill_lem offset value zero index p bytes fits = ground arith
fill_lem offset value (suc left) index p bytes fits =
    fill_lem offset value left (index + 1) p (list_set bytes (offset + index) (byte_at value index))
      (omega (arith, length-set bytes (offset + index) (byte_at value index)))
    ∙ next_write offset value left index p bytes (omega arith)

length-resize : (n : ℕ) (xs : List ℕ) → length xs ≤ n → length (resize n xs) ≡ n
unfolding resize
length-resize n xs h = omega (
  arith,
  length-append (take n xs) (replicate (n - length xs) 0),
  length-take n xs,
  length-replicate {A = ℕ} (n - length xs) 0,
)

-- Growing adds zeros, which is what is read there anyway.
byte_at-resize : (n p : ℕ) (xs : List ℕ) → length xs ≤ n → byte_at (resize n xs) p ≡ byte_at xs p
unfolding resize
byte_at-resize zero p [] h = refl
byte_at-resize (suc n) p [] h = rw sub-zero (get_or-replicate {A = ℕ} (suc n) p 0)
byte_at-resize zero p (x ∷ xs) h = absurd (omega arith)
byte_at-resize (suc n) zero (x ∷ xs) h = refl
byte_at-resize (suc n) (suc p) (x ∷ xs) h = rw suc-sub-suc (byte_at-resize n p xs (omega arith))

-- `m'` is `m` with `size` bytes written from `offset` on: the bytes of `value`, then zeros.
pub record IsWritten (m m' : Memory) (offset size : ℕ) (value : List ℕ) : Type 0 where
  pub inside :
      (p : ℕ) → offset ≤ p → p < offset + size → byte_at m'.bytes p ≡ byte_at value (p - offset)
  pub outside :
      (p : ℕ) → (p < offset) ⊎ (offset + size ≤ p) → byte_at m'.bytes p ≡ byte_at m.bytes p
  pub grown : length m'.bytes ≡ max (length m.bytes) (offset + size)
  pub same_limit : m'.limit ≡ m.limit
  pub same_effective_len : m'.effective_len ≡ m.effective_len

module _ (m : Memory) (offset size : ℕ) (value : List ℕ) where
  abbrev grown_bytes : List ℕ
  grown_bytes =
      if ltb (length m.bytes) (offset + size) then resize (offset + size) m.bytes else m.bytes

  length-grown_bytes : length grown_bytes ≡ max (length m.bytes) (offset + size)
  length-grown_bytes = ground (arith, length-resize (offset + size) m.bytes)

  byte_at-grown_bytes : (p : ℕ) → byte_at grown_bytes p ≡ byte_at m.bytes p
  byte_at-grown_bytes p = ground (arith, byte_at-resize (offset + size) p m.bytes)

  write-eq :
      offset + size ≤ m.limit
      → m.limit ≤ usize_max
      → write m offset value size
        ≡ (ok tt, record m { bytes = fill offset value size 0 grown_bytes })
  unfolding write finish
  write-eq fits small = rw (
    le→ltb usize_max (offset + size) (omega arith),
    le→ltb m.limit (offset + size) fits,
    set_loop-eq offset value size 0 grown_bytes (omega (arith, length-grown_bytes)),
  )

  write_byte :
      (p : ℕ)
      → byte_at (fill offset value size 0 grown_bytes) p ≡ (
          if leb offset p && ltb p (offset + size)
          then byte_at value (p - offset)
          else byte_at m.bytes p)
  write_byte p =
      fill_lem offset value size 0 p grown_bytes (omega (arith, length-grown_bytes))
      ∙ rw byte_at-grown_bytes (ground arith)

  -- A write that ends within the limit succeeds: it stores the value and zeros after it, changes no
  -- other byte, and grows the memory just as far as it reaches.
  write-IsWritten :
      offset + size ≤ m.limit
      → m.limit ≤ usize_max
      → ((write m offset value size).0 ≡ ok tt)
        × IsWritten m (write m offset value size).1 offset size value
  write-IsWritten fits small = rw (write-eq fits small) (
    refl,
    record {
      inside = λ p lo hi. ground (arith, write_byte p);
      outside = λ p away. ground (arith, write_byte p);
      grown = length-fill offset value size 0 grown_bytes ∙ length-grown_bytes;
      same_limit = refl;
      same_effective_len = refl;
    },
  )

  -- A write that ends past the limit fails and changes nothing.
  write_refused : m.limit < offset + size → write m offset value size ≡ (err not_supported, m)
  unfolding write
  write_refused past = ground arith

set-eq-write :
    (m : Memory) (offset v : ℕ) (vs : List ℕ)
    → set m offset (v ∷ vs) none ≡ write m offset (v ∷ vs) (length (v ∷ vs))
unfolding set
set-eq-write m offset v vs = ground arith

-- In a memory that keeps to its limit, which is a `usize`, a value that fits below the limit is read back
-- as it was written, whatever stood there before.
pub get-set :
    (m : Memory) (offset : ℕ) (value : List ℕ)
    → offset + length value ≤ m.limit
    → m.limit ≤ usize_max
    → length m.bytes ≤ m.limit
    → get (set m offset value none).1 offset (length value) ≡ value
get-set m offset [] fits small ok_len = unfold get get_loop in refl
get-set m offset (v ∷ vs) fits small ok_len = rw (set-eq-write m offset v vs) (
    let value = v ∷ vs in
    let m' = (write m offset value (length value)).1 in
    let w : IsWritten m m' offset (length value) value =
      (write-IsWritten m offset (length value) value fits small).1 in
    let r = get_lem m' offset (length value) (omega arith) (omega (arith, w.grown)) in
    get_or_ext 0 (get m' offset (length value)) value r.0 λ i below.
      r.1 i below
      ∙ w.inside (offset + i) (omega arith) (omega arith)
      ∙ ap (byte_at value) (omega arith))

-- Writing with a target size that is not 0, in a memory whose limit is a `usize`: within the limit the
-- value is stored, cut off or filled up with zeros to that size, and nothing else changes; past it the
-- write is refused and the memory is unchanged.
pub set_lem :
    (m : Memory) (offset size : ℕ) (value : List ℕ)
    → 0 < size
    → m.limit ≤ usize_max
    → ((offset + size ≤ m.limit)
        × ((set m offset value (some size)).0 ≡ ok tt)
        × IsWritten m (set m offset value (some size)).1 offset size value)
      ⊎ ((m.limit < offset + size) × (set m offset value (some size) ≡ (err not_supported, m)))
unfolding set
set_lem m offset size value pos small =
    rw (ne_zero size pos) (elim (dec_le (offset + size) m.limit) [
      | yes fits ↦
          let (done, w) = write-IsWritten m offset size value fits small in inl (fits, done, w)
      | no past ↦ inr (omega arith, write_refused m offset size value (omega arith))
    ])
  where
    ne_zero : (n : ℕ) → 0 < n → (n == 0) ≡ false
    ne_zero n h = ground arith
