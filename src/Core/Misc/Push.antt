-- ===== src/Core/Misc/Push.antt =====
-- What PUSH puts on the stack.
use sputnikvm.Base.{
  ℕ, ◌+◌, ◌-◌, ◌≤◌, ◌<◌, ◌≡◌, refl, false, ◌∙◌, List, [], ◌∷◌, ◌++◌, min, ok, ltb, if◌then◌else◌,
  length, get_or, take, drop, replicate, length-append, length-take, length-drop, length-replicate,
  get_or-append_left, get_or-append_right, get_or-replicate, get_or-take, get_or-drop, arith,
  le→ltb, lt→ltb,
}
use native.Mathlib.Decide.{dec_lt}
use sputnikvm.PrimitiveTypes.{H256}
use sputnikvm.Core.Stack
use sputnikvm.Core.Machine.{Machine}
use sputnikvm.Core.Exec.{continue, pure, gets, with_stack, push_value, ◌>>=◌}
use sputnikvm.Core.Misc.{immediate, right_aligned, push}

-- The bytes after the opcode, where the code has them all.
immediate_lem :
    (code : List ℕ) (n position : ℕ)
    → position + n < length code
    → immediate code n position ≡ take n (drop (position + 1) code)
unfolding immediate
immediate_lem code n position h =
    let end : min (position + 1 + n) (length code) - (position + 1) ≡ n = omega arith in rw end refl

get_or_right :
    (xs ys : List ℕ) (i j : ℕ) → length xs + i ≡ j → get_or (xs ++ ys) j 0 ≡ get_or ys i 0
get_or_right xs ys i j e = rw (← e) (get_or-append_right xs ys i 0)

module _ (code : List ℕ) (n position : ℕ) (short : n ≤ 32)
    (inside : position + n < length code) where
  abbrev item : H256
  item = right_aligned (take n (drop (position + 1) code))

  length-bytes : length (take n (drop (position + 1) code)) ≡ n
  length-bytes =
      ground (arith, length-take n (drop (position + 1) code), length-drop (position + 1) code)

  abbrev zeros : List ℕ
  zeros = replicate (32 - n) 0

  length-zeros : length zeros ≡ 32 - n
  length-zeros = length-replicate {A = ℕ} (32 - n) 0

  padded : item ≡ zeros ++ take n (drop (position + 1) code)
  unfolding right_aligned
  padded = rw length-bytes refl

  length-item : length item ≡ 32
  length-item = rw padded (
      omega (
        arith,
        length-append zeros (take n (drop (position + 1) code)),
        length-zeros,
        length-bytes,
      ))

  item_at :
      (k : ℕ)
      → k < 32
      → get_or item (31 - k) 0 ≡ (if ltb k n then get_or code (position + n - k) 0 else 0)
  item_at k h = elim (dec_lt k n) [
    | yes low ↦
        let start : length zeros + (n - 1 - k) ≡ 31 - k = omega (arith, length-zeros) in
        let place : position + 1 + (n - 1 - k) ≡ position + n - k = omega arith in
        let bytes = drop (position + 1) code in
        rw (lt→ltb k n low, padded)
          (get_or_right zeros (take n bytes) (n - 1 - k) (31 - k) start
            ∙ get_or-take n bytes (n - 1 - k) 0 (omega arith)
            ∙ get_or-drop (position + 1) code (n - 1 - k) 0
            ∙ rw place refl)
    | no high ↦
        rw (le→ltb k n (omega arith), padded)
          (get_or-append_left zeros (take n (drop (position + 1) code)) (31 - k) 0
              (omega (arith, length-zeros))
            ∙ get_or-replicate (32 - n) (31 - k) 0)
  ]

-- PUSH of `n` bytes, at most 32, that the code has after the opcode, on a stack with room: the item that
-- it puts on top has 32 bytes, the last `n` of them those of the code in their order and 0 before them;
-- nothing else of the machine changes, and the machine goes on after the bytes.
pub push_lem :
    (n position : ℕ) (s : Machine)
    → n ≤ 32
    → position + n < length s.code
    → length s.stack.data_items < s.stack.limit
    → (item : H256) × (length item ≡ 32)
      × ((k : ℕ)
          → k < 32
          → get_or item (31 - k) 0 ≡ (if ltb k n then get_or s.code (position + n - k) 0 else 0))
      × (push n position s ≡ (
        ok (continue (1 + n)),
        record s { stack = record s.stack { data_items = s.stack.data_items ++ (item ∷ []) } },
      ))
unfolding push push_value with_stack gets pure ◌>>=◌ Stack.push
push_lem n position s short inside room =
    let fits : ltb s.stack.limit (length s.stack.data_items + 1) ≡ false =
      le→ltb _ _ (omega arith) in
    (
      item s.code n position short inside,
      length-item s.code n position short inside,
      item_at s.code n position short inside,
      rw (immediate_lem s.code n position inside, fits) refl,
    )
