-- ===== src/Core/Step/Safety.antt =====
-- core/src/lib.rs: where a running machine stands, and what it keeps.
use sputnikvm.Base.{
  ℕ, ◌+◌, ◌≤◌, ◌<◌, ◌≡◌, refl, subst, List, length, get_elem?, get_or, ok, err, arith, zero, suc,
  inl, inr, get_elem?-eq-get_or, get_elem?_past, none, some,
}
use native.Mathlib.Decide.{dec_lt}
use sputnikvm.Base.Result.{Result, Result-cases}
use sputnikvm.PrimitiveTypes.{U256Ops, usize_max}
use sputnikvm.Core.Error.{ExitReason}
use sputnikvm.Core.Valids.Boundary.{
  instruction_len, here, Boundary, Boundary-after, is_valid-new_iff,
}
use sputnikvm.Core.Stack.Bounds as StackBounds
use sputnikvm.Core.Memory.Bounds as MemoryBounds
use sputnikvm.Core.Machine
use sputnikvm.Core.Machine.{Machine}
use sputnikvm.Core.Exec.{Control, continue, exit, jump, trap}
use sputnikvm.Core.Exec.Keeps.{IsSound, Allowed}
use sputnikvm.Core.Eval.{eval}
use sputnikvm.Core.Eval.Keeps.{eval-Allowed}
use sputnikvm.Core.Step.{follow, step_at, step, run}

-- The machine is sound, and if its position is inside the code then an instruction starts there.
pub record IsSafe (code : List ℕ) (stack_limit memory_limit : ℕ) (s : Machine) : Type 0 where
  pub sound : IsSound code stack_limit memory_limit s
  pub at_instruction : (p : ℕ) → s.position ≡ ok p → p < length code → Boundary code p

module _ {code : List ℕ} {sl ml : ℕ} where
  -- A machine whose position alone was changed.
  moved-IsSound :
      (s : Machine) (position : _)
      → IsSound code sl ml s
      → IsSound code sl ml (record s { position = position })
  moved-IsSound s position h = record {
    same_code = h.same_code;
    same_valids = h.same_valids;
    stack_fits = h.stack_fits;
    memory_fits = h.memory_fits;
  }

  moved-IsSafe :
      (s : Machine) (q : ℕ)
      → IsSound code sl ml s
      → (q < length code → Boundary code q)
      → IsSafe code sl ml (record s { position = ok q })
  moved-IsSafe s q h b = record {
    sound = moved-IsSound s (ok q) h;
    at_instruction =
        λ p e inside. let same : q ≡ p = cc in subst (Boundary code) same (b (omega arith));
  }

  stopped-IsSafe :
      (s : Machine) (e : ExitReason)
      → IsSound code sl ml s
      → IsSafe code sl ml (record s { position = err e })
  stopped-IsSafe s e h = record {
    sound = moved-IsSound s (err e) h;
    at_instruction = λ p e' inside. cc;
  }

  follow-IsSafe :
      (p : ℕ) (c : Control) (s : Machine)
      → p < length code
      → Boundary code p
      → Allowed code (instruction_len (get_or code p 0)) c
      → IsSound code sl ml s
      → IsSafe code sl ml (follow c p s).1
  unfolding follow
  follow-IsSafe p (continue n) s inside b e h =
      moved-IsSafe s (p + n) h (λ _. rw e (Boundary-after code p inside b))
  follow-IsSafe p (exit e) s inside b _ h = stopped-IsSafe s e h
  follow-IsSafe p (jump q) s inside b valid h =
      moved-IsSafe s q h (λ _. ((is_valid-new_iff code q).0 valid).0)
  follow-IsSafe p (trap o) s inside b e h =
      moved-IsSafe s (p + 1) h (λ _. rw (← e) (Boundary-after code p inside b))

module _ ⦃U : U256Ops⦄ {code : List ℕ} {sl ml : ℕ} where
  fetched-IsSafe :
      (p opcode : ℕ) (s : Machine)
      → ml ≤ usize_max
      → p < length code
      → Boundary code p
      → get_or code p 0 ≡ opcode
      → IsSound code sl ml s
      → IsSafe code sl ml (follow (eval opcode p s).0 p (eval opcode p s).1).1
  fetched-IsSafe p opcode s small inside b fetched h =
      let (h', allowed) = eval-Allowed opcode p s small h in
      follow-IsSafe p (eval opcode p s).0 (eval opcode p s).1 inside b (rw fetched allowed) h'

  step_at-IsSafe :
      (s : Machine) (position : _)
      → ml ≤ usize_max
      → s.position ≡ position
      → IsSafe code sl ml s
      → IsSafe code sl ml (step_at s position).1
  unfolding step_at
  step_at-IsSafe s (err e) small same h = h
  step_at-IsSafe s (ok p) small same h = elim (dec_lt p (length code)) [
    | yes inside ↦
        let fetched : get_elem? s.code p ≡ some (get_or code p 0) =
          rw h.sound.same_code (get_elem?-eq-get_or code p 0 inside) in
        rw (fetched, step_at)
          (fetched-IsSafe p (get_or code p 0) s small inside (h.at_instruction p same inside) refl
            h.sound)
    | no past ↦
        let ended : get_elem? s.code p ≡ none =
          rw h.sound.same_code (get_elem?_past code p (omega arith)) in
        rw (ended, step_at) (stopped-IsSafe s _ h.sound)
  ]

  -- A step keeps a machine safe.
  pub step-IsSafe :
      (s : Machine) → ml ≤ usize_max → IsSafe code sl ml s → IsSafe code sl ml (step s).1
  unfolding step
  step-IsSafe s small h = step_at-IsSafe s s.position small refl h

  pub run-IsSafe :
      (fuel : ℕ) (s : Machine)
      → ml ≤ usize_max
      → IsSafe code sl ml s
      → IsSafe code sl ml (run fuel s).1
  unfolding run
  run-IsSafe zero s small h = h
  run-IsSafe (suc fuel) s small h =
      let next : IsSafe code sl ml (step s).1 = step-IsSafe s small h in
      elim (Result-cases (step s).0) [
        | inl (_, e) ↦ rw (e, run) (run-IsSafe fuel (step s).1 small next)
        | inr (c, e) ↦ rw (e, run) next
      ]

pub new-IsSafe :
    (code input : List ℕ) (sl ml : ℕ) → IsSafe code sl ml (Machine.new code input sl ml)
unfolding Machine.new
new-IsSafe code input sl ml = record {
  sound = record {
    same_code = refl;
    same_valids = refl;
    stack_fits = StackBounds.new-Fits;
    memory_fits = MemoryBounds.new-Fits;
  };
  at_instruction = λ p e inside. here cc;
}

-- Where a machine may stand: past its code, at the start of an instruction, or at no position at all.
pub data Stands (code : List ℕ) : Result ExitReason ℕ → Type 0 where
  exited : (e : ExitReason) → Stands code (err e)
  past : (p : ℕ) → length code ≤ p → Stands code (ok p)
  at : (p : ℕ) → Boundary code p → Stands code (ok p)

IsSafe-Stands :
    {code : List ℕ} {sl ml : ℕ} (s : Machine) (position : _)
    → s.position ≡ position
    → IsSafe code sl ml s
    → Stands code position
IsSafe-Stands s (err e) same h = exited e
IsSafe-Stands {code} s (ok p) same h = elim (dec_lt p (length code)) [
  | yes inside ↦ at p (h.at_instruction p same inside)
  | no outside ↦ past p (omega arith)
]

-- However many steps a new machine with a memory limit that is a `usize` makes, on any code and input:
-- unless it has exited or stands past its code, it stands where an instruction starts when the code is
-- read from its first byte. So the data of a PUSH is never executed.
pub run-Stands :
    ⦃U : U256Ops⦄ (code input : List ℕ) (stack_limit memory_limit fuel : ℕ)
    → memory_limit ≤ usize_max
    → Stands code (run fuel (Machine.new code input stack_limit memory_limit)).1.position
run-Stands code input sl ml fuel small =
    let m = Machine.new code input sl ml in
    IsSafe-Stands (run fuel m).1 (run fuel m).1.position refl
      (run-IsSafe fuel m small (new-IsSafe code input sl ml))

-- However many steps a new machine makes, on any code and input and with a memory limit that is a `usize`:
-- its stack and memory do not grow past the limits that it was made with, and its code and validity map
-- do not change.
pub run-IsSound :
    ⦃U : U256Ops⦄ (code input : List ℕ) (stack_limit memory_limit fuel : ℕ)
    → memory_limit ≤ usize_max
    → IsSound code stack_limit memory_limit
        (run fuel (Machine.new code input stack_limit memory_limit)).1
run-IsSound code input sl ml fuel small =
    (run-IsSafe fuel (Machine.new code input sl ml) small (new-IsSafe code input sl ml)).sound
