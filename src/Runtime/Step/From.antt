-- ===== src/Runtime/Step/From.antt =====
-- runtime/src/lib.rs: what a run makes of the handler.
use sputnikvm.Base.{
  ℕ, zero, suc, Bool, List, Option, none, some, ok, err, ◌≡◌, refl, sym, ◌∙◌, subst, inl, inr,
  arith, Option-cases,
}
use sputnikvm.Base.Result.{Result}
use sputnikvm.Base.Outcome.{
  Outcome, returned, IsFine, fine, no_fuel, IsFine-bind_outcome, IsFine-map,
}
use sputnikvm.PrimitiveTypes.{U256Ops, H256}
use sputnikvm.Core.Error as Error
use sputnikvm.Core.Error.{Capture, ExitError, ExitReason}
use sputnikvm.Core.Opcode.{Opcode}
use sputnikvm.Core.Stack.{Stack}
use sputnikvm.Core.Machine as Machine
use sputnikvm.Core.Machine.{Machine}
use sputnikvm.Core.Step as Core
use sputnikvm.Core.Step.Traps.{StepsFrom, steps, stops, traps_at, step-StepsFrom}
use sputnikvm.Runtime.Trait.{HandlerTrait}
use sputnikvm.Runtime.Laws.{Laws}
use sputnikvm.Runtime.Act.{Runtime, Control, continue, call_interrupt, create_interrupt, exit}
use sputnikvm.Runtime.Eval.From.{Stays, FromAt-eval}
use sputnikvm.Runtime.Step.{
  Stepped, Ran, exit_with, controlled, validated, validate, after_machine, after_validate, step,
  next, run,
}

module _ ⦃U : U256Ops⦄ {C H CreateInterrupt CallInterrupt : Type 0}
    {T : HandlerTrait H CreateInterrupt CallInterrupt} {static : H → Bool} {Good : H → Type 0}
    {R : H → H → Type 0} (L : Laws C T static Good R) where
  -- A pre-validation that refuses leaves an error, and one that passes leaves the runtime as it was, and
  -- no opcode that a static handler would change its state by.
  data Validated (r : Runtime) (h : H) : Runtime × H → Type 0 where
    refused : (e : ExitReason) (i : H) → R h i → Validated r h (exit_with r e, i)
    passed :
        (i : H)
        → R h i
        → ((op : Opcode) (s : Stack) → Machine.inspect r.machine ≡ some (op, s) → Stays L h op s)
        → Validated r h (r, i)

  validated-Validated :
      (r : Runtime) (h : H) (op : Opcode) (s : Stack) (x : Result ExitError (Unit {0}) × H)
      → Machine.inspect r.machine ≡ some (op, s)
      → R h x.1
      → (x.0 ≡ ok tt → Stays L h op s)
      → Validated r h (validated x r)
  unfolding validated
  validated-Validated r h op s (ok u, i) e k stays =
      passed i k (λ op' s' e'. subst (λ o. same_inspected o) (sym e ∙ e') (stays refl))
    where
      same_inspected : Option (Opcode × Stack) → Type 0
      same_inspected none = ⊥
      same_inspected (some (o, t)) = Stays L h o t
  validated-Validated r h op s (err x, i) e k stays = refused _ i k

  validate-Validated : (r : Runtime) (h : H) → Validated r h (validate T r h)
  unfolding validate
  validate-Validated r h = elim (Option-cases (Machine.inspect r.machine)) [
    | inl e ↦ rw (e, validate) (passed h (L.done h) (λ op s e'. ground arith))
    | inr ((op, s), e) ↦
        rw (e, validate)
          (validated-Validated r h op s (T.pre_validate h r.context op s) e
            (L.pre_validate h r.context op s) (λ p q c. L.guard h r.context op s q c p))
  ]

  -- What a step returns, and what it makes of the handler.
  abbrev StepFine : H → Outcome (Stepped H CreateInterrupt CallInterrupt) → Type 0
  StepFine h o = IsFine C {A = Stepped H CreateInterrupt CallInterrupt} (λ x. R h x.2) o

  controlled-handler :
      (x : Result (Control CreateInterrupt CallInterrupt) (Unit {0}) × Runtime × H)
      → (controlled x).2 ≡ x.2
  unfolding controlled
  controlled-handler (ok u, r, h) = refl
  controlled-handler (err continue, r, h) = refl
  controlled-handler (err (call_interrupt i), r, h) = refl
  controlled-handler (err (create_interrupt i), r, h) = refl
  controlled-handler (err (exit e), r, h) = refl

  after_machine-fine :
      (keccak256 : List ℕ → H256) (h : H) (r : Runtime) (i : H)
      {x : Result Core.Captured (Unit {0})} {n : Machine}
      → Good h
      → R h i
      → ((op : Opcode) (s : Stack) → Machine.inspect r.machine ≡ some (op, s) → Stays L h op s)
      → StepsFrom r.machine x n
      → StepFine h (after_machine T keccak256 x (record r { machine = n }) i)
  unfolding after_machine
  after_machine-fine keccak256 h r i good k stays (steps n) = fine _ k
  after_machine-fine keccak256 h r i good k stays (stops e n) = fine _ k
  after_machine-fine keccak256 h r i good k stays (traps_at op n e same) =
      IsFine-bind_outcome _
        ((FromAt-eval L keccak256 op h good).at (record r { machine = n }) i k
          (rw same (stays op r.machine.stack e)))
        (λ x l. fine _ (rw (controlled-handler x) l))

  after_validate-fine :
      (keccak256 : List ℕ → H256) (r : Runtime) (h : H) {x : Runtime × H}
      → Good h
      → Validated r h x
      → StepFine h (after_validate T keccak256 x)
  unfolding after_validate exit_with
  after_validate-fine keccak256 r h good (refused e i k) = fine _ k
  after_validate-fine keccak256 r h good (passed i k stays) = by_status r.status
    where
      by_status :
          (status : Result ExitReason (Unit {0}))
          → StepFine h (elim status [
            | err e ↦ returned (err (Error.exit e), r, i)
            | ok _ ↦
                let (x, machine) = Core.step r.machine in
                after_machine T keccak256 x (record r { machine = machine }) i
          ])
      by_status (err e) = fine _ k
      by_status (ok u) = after_machine-fine keccak256 h r i good k stays (step-StepsFrom r.machine)

  step-fine :
      (keccak256 : List ℕ → H256) (r : Runtime) (h : H) → Good h → StepFine h (step T keccak256 r h)
  unfolding step
  step-fine keccak256 r h good = after_validate-fine keccak256 r h good (validate-Validated r h)

  -- What a run makes of the handler.
  abbrev RunFine : H → Outcome (Ran H CreateInterrupt CallInterrupt) → Type 0
  RunFine h o = IsFine C {A = Ran H CreateInterrupt CallInterrupt} (λ x. R h x.2) o

  next-fine :
      (go_on : Runtime → H → Outcome (Ran H CreateInterrupt CallInterrupt)) (h : H)
      (x : Stepped H CreateInterrupt CallInterrupt)
      → Good h
      → ((r : Runtime) (i : H) → Good i → RunFine i (go_on r i))
      → R h x.2
      → RunFine h (next go_on x)
  unfolding next
  next-fine go_on h (ok u, s, i) good rest k =
      IsFine-map (rest s i (L.good k good)) (λ y l. L.then k l)
  next-fine go_on h (err c, s, i) good rest k = fine _ k

  -- A run does not panic, but by an addition where `C` holds, and makes of a good handler what `R` allows.
  pub run-fine :
      (keccak256 : List ℕ → H256) (fuel : ℕ) (r : Runtime) (h : H)
      → Good h
      → IsFine C {A = Ran H CreateInterrupt CallInterrupt} (λ x. R h x.2) (run T keccak256 fuel r h)
  unfolding run
  run-fine keccak256 zero r h good = no_fuel
  run-fine keccak256 (suc fuel) r h good =
      IsFine-bind_outcome _ (step-fine keccak256 r h good) (λ x k.
        next-fine (run T keccak256 fuel) h x good (λ s i g. run-fine keccak256 fuel s i g) k)
