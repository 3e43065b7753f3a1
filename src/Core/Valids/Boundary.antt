-- ===== src/Core/Valids/Boundary.antt =====
-- core/src/valids.rs: the valid positions, and the instruction boundaries.
use sputnikvm.Base.{
  ℕ, zero, suc, ◌+◌, ◌≤◌, ◌<◌, ◌≡◌, refl, sym, ◌∙◌, ◌↔◌, ◌⊎◌, inl, inr, Bool, Bool-cases, true,
  false, List, ltb, ◌==◌, if◌then◌else◌, length, get_or, set, replicate, length-set,
  length-replicate, get_or-set_self, get_or-set_ne, get_or-replicate, get_or_past, arith, lt→ltb,
  le→ltb, ◌&&◌, ◌-◌,
}
use mathlib.Core.Bool.{false≢true}
use native.Mathlib.Decide.{dec_lt, ℕ_discrete}
use sputnikvm.Core.Opcode
use sputnikvm.Core.Opcode.{is_push}
use sputnikvm.Core.Valids.{Valids, skip, scan, new, len, is_valid}

-- The bytes of an instruction: its opcode, and the immediate bytes of PUSH1 (0x60) to PUSH32 (0x7f).
abbrev pub instruction_len : ℕ → ℕ
instruction_len op = if ltb 0x5f op && ltb op 0x80 then op - 0x5f + 1 else 1

-- Reading instructions from position `i` on, one of them starts at `p`. This knows nothing of how the
-- code is scanned.
pub data Reaches (code : List ℕ) (p : ℕ) : ℕ → Type 0 where
  here : {i : ℕ} → i ≡ p → Reaches code p i
  next :
      {i : ℕ}
      → i < length code
      → Reaches code p (i + instruction_len (get_or code i 0))
      → Reaches code p i

-- An instruction starts at `p` when the code is read from its first byte.
abbrev pub Boundary : List ℕ → ℕ → Type 0
Boundary code p = Reaches code p 0

-- The instruction after one that starts at `p`.
Reaches-after :
    (code : List ℕ) (p : ℕ) {i : ℕ}
    → p < length code
    → Reaches code p i
    → Reaches code (p + instruction_len (get_or code p 0)) i
Reaches-after code p {i} inside (here e) = next (omega arith) (here (rw e))
Reaches-after code p inside (next h r) = next h (Reaches-after code p inside r)

pub Boundary-after :
    (code : List ℕ) (p : ℕ)
    → p < length code
    → Boundary code p
    → Boundary code (p + instruction_len (get_or code p 0))
Boundary-after = λ code p inside b. Reaches-after code p inside b

advance_lem :
    (op i : ℕ)
    → (if op == Opcode.jumpdest then i + 1 else i + skip (is_push op)) ≡ i + instruction_len op
unfolding skip is_push
advance_lem op i = ground arith

module _ (code : List ℕ) where
  scan-suc :
      (fuel i : ℕ) (valids : List Bool)
      → i < length code
      → scan code (suc fuel) i valids
        ≡ scan code fuel
            (i + instruction_len (get_or code i 0))
            (if get_or code i 0 == Opcode.jumpdest then set valids i true else valids)
  unfolding scan
  scan-suc fuel i valids h = rw (lt→ltb i (length code) h, advance_lem (get_or code i 0) i)

  scan_past : (fuel i : ℕ) (valids : List Bool) → length code ≤ i → scan code fuel i valids ≡ valids
  unfolding scan
  scan_past zero i valids h = refl
  scan_past (suc fuel) i valids h = rw (le→ltb i (length code) h)

  -- The flags after the opcode at `i` was seen.
  abbrev marked : ℕ → List Bool → List Bool
  marked i valids = if get_or code i 0 == Opcode.jumpdest then set valids i true else valids

  length-marked : (i : ℕ) (valids : List Bool) → length (marked i valids) ≡ length valids
  length-marked i valids = ground (arith, length-set valids i true)

  length-scan : (fuel i : ℕ) (valids : List Bool) → length (scan code fuel i valids) ≡ length valids
  unfolding scan
  length-scan zero i valids = refl
  length-scan (suc fuel) i valids = elim (Bool-cases (ltb i (length code))) [
    | inr past ↦ rw past
    | inl h ↦ rw h (length-scan fuel _ _ ∙ length-marked i valids)
  ]

  abbrev flag : List Bool → ℕ → Bool
  flag valids p = get_or valids p false

  marked_at :
      (i p : ℕ) (valids : List Bool)
      → flag valids p ≡ true
      → i ≡ p
      → flag (set valids i true) p ≡ true
  marked_at i p valids h e = elim (dec_lt p (length valids)) [
    | yes inside ↦ rw e (get_or-set_self valids p true false inside)
    | no past ↦ absurd (false≢true (sym (get_or_past valids p false (omega arith)) ∙ h))
  ]

  marked_keep :
      (i p : ℕ) (valids : List Bool) → flag valids p ≡ true → flag (marked i valids) p ≡ true
  marked_keep i p valids h =
      grind (arith, get_or-set_ne valids i p true false, marked_at i p valids h)

  marked_self :
      (i : ℕ) (valids : List Bool)
      → i < length valids
      → get_or code i 0 ≡ Opcode.jumpdest
      → flag (marked i valids) i ≡ true
  marked_self i valids inside h = ground (arith, get_or-set_self valids i true false)

  marked_sound :
      (i p : ℕ) (valids : List Bool)
      → flag (marked i valids) p ≡ true
      → (flag valids p ≡ true) ⊎ ((i ≡ p) × (get_or code i 0 ≡ Opcode.jumpdest))
  marked_sound i p valids h = elim (ℕ_discrete i p) [
    | no ne ↦ inl (ground (arith, get_or-set_ne valids i p true false ne))
    | yes e ↦ ground arith
  ]

  scan_keep :
      (fuel i p : ℕ) (valids : List Bool)
      → flag valids p ≡ true
      → flag (scan code fuel i valids) p ≡ true
  scan_keep zero i p valids h = unfold scan in h
  scan_keep (suc fuel) i p valids h = elim (dec_lt i (length code)) [
    | yes inside ↦ rw (scan-suc fuel i valids inside) (
        scan_keep fuel (i + instruction_len (get_or code i 0)) p (marked i valids)
          (marked_keep i p valids h))
    | no past ↦ rw (scan_past (suc fuel) i valids (omega arith)) h
  ]

  scan_complete :
      (p fuel i : ℕ) (valids : List Bool)
      → length code ≤ i + fuel
      → length valids ≡ length code
      → Reaches code p i
      → p < length code
      → get_or code p 0 ≡ Opcode.jumpdest
      → flag (scan code fuel i valids) p ≡ true
  scan_complete p zero i valids enough same (here e) inside dest = absurd (omega arith)
  scan_complete p (suc fuel) i valids enough same (here e) inside dest =
      rw (scan-suc fuel i valids (omega arith)) (
        scan_keep fuel (i + instruction_len (get_or code i 0)) p (marked i valids)
          (rw (← e) (marked_self i valids (omega arith) (rw e dest))))
  scan_complete p zero i valids enough same (next h r) inside dest = absurd (omega arith)
  scan_complete p (suc fuel) i valids enough same (next h r) inside dest =
      rw (scan-suc fuel i valids h) (
        scan_complete p fuel (i + instruction_len (get_or code i 0)) (marked i valids)
          (ground arith) (length-marked i valids ∙ same) r inside dest)

  scan_sound :
      (fuel i p : ℕ) (valids : List Bool)
      → flag (scan code fuel i valids) p ≡ true
      → (flag valids p ≡ true)
        ⊎ (Reaches code p i × (p < length code) × (get_or code p 0 ≡ Opcode.jumpdest))
  scan_sound zero i p valids h = inl (unfold scan in h)
  scan_sound (suc fuel) i p valids h = elim (dec_lt i (length code)) [
    | no past ↦ inl (rw (scan_past (suc fuel) i valids (omega arith)) at h)
    | yes inside ↦
        elim (scan_sound fuel (i + instruction_len (get_or code i 0)) p (marked i valids)
          (rw (scan-suc fuel i valids inside) at h)) [
            | inr (r, below, dest) ↦ inr (next inside r, below, dest)
            | inl m ↦ elim (marked_sound i p valids m) [
              | inl old ↦ inl old
              | inr (e, d) ↦ inr (here e, omega arith, rw (← e) d)
            ]
          ]
  ]

is_valid-eq-flag : (v : Valids) (p : ℕ) → is_valid v p ≡ get_or v.flags p false
unfolding is_valid
is_valid-eq-flag v p = ground (arith, get_or_past v.flags p false)

-- A position is valid exactly if it is inside the code, a JUMPDEST stands there, and an instruction
-- starts there when the code is read from its first byte.
pub is_valid-new_iff :
    (code : List ℕ) (p : ℕ)
    → (is_valid (new code) p ≡ true)
      ↔ (Boundary code p × (p < length code) × (get_or code p 0 ≡ Opcode.jumpdest))
is_valid-new_iff code p = rw is_valid-eq-flag (
    unfold new in
    (
      λ h. elim (scan_sound code (length code) 0 p (replicate (length code) false) h) [
        | inr facts ↦ facts
        | inl c ↦ absurd (false≢true (sym (get_or-replicate (length code) p false) ∙ c))
      ],
      λ (b, inside, dest).
          scan_complete code p (length code) 0 (replicate (length code) false) (omega arith)
            (length-replicate (length code) false) b inside dest,
    ))

-- The mapping is as long as the code.
pub len-new : (code : List ℕ) → len (new code) ≡ length code
unfolding len new
len-new code =
    length-scan code (length code) 0 (replicate (length code) false)
    ∙ length-replicate (length code) false
