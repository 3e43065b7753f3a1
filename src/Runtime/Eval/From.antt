-- ===== src/Runtime/Eval/From.antt =====
-- runtime/src/eval/mod.rs: what each opcode makes of the handler.
use sputnikvm.Base.{
  ℕ, Bool, true, false, List, [], ◌∷◌, ◌==◌, ok, err, ◌≡◌, subst, ==_iff, Bool-cases, inl, inr,
  arith,
}
use sputnikvm.Base.Result.{Result}
use sputnikvm.Base.Outcome.{IsFine, fine, returned}
use sputnikvm.PrimitiveTypes.{U256Ops, H256}
use sputnikvm.Core.Error.{ExitError, error}
use sputnikvm.Core.Opcode
use sputnikvm.Core.Opcode.{Opcode}
use sputnikvm.Core.Stack.{Stack}
use sputnikvm.Core.Machine.{Machine}
use sputnikvm.Core.Exec.{Exec}
use sputnikvm.Gasometer.Dynamic.StaticMode.{ChangesState}
use sputnikvm.Runtime.Context as Context
use sputnikvm.Runtime.Context.{Context}
use sputnikvm.Runtime.Handler.{Handler}
use sputnikvm.Runtime.Trait.{HandlerTrait}
use sputnikvm.Runtime.Laws.{Laws}
use sputnikvm.Runtime.Act.{Runtime, Control, exit, Act}
use sputnikvm.Runtime.Act.From.{From, From-on_machine}
use sputnikvm.Runtime.Act.FromAt.{FromAt, ZeroAt}
use sputnikvm.Runtime.Effects as Effects
use sputnikvm.Runtime.Effects.From.{
  From-sstore, From-log_op, From-suicide, From-create, From-call, From-call_nothing, From-call_code,
  From-delegate_call, From-static_call,
}
use sputnikvm.Runtime.Eval.{reading, handle_other, Arms, arm_in, arms, eval}

module _ ⦃U : U256Ops⦄ {C H CreateInterrupt CallInterrupt : Type 0}
    {T : HandlerTrait H CreateInterrupt CallInterrupt} {static : H → Bool} {Good : H → Type 0}
    {R : H → H → Type 0} (L : Laws C T static Good R) where
  -- A static handler does not change its state by the opcode on a machine with this stack.
  abbrev pub Stays : H → Opcode → Stack → Type 0
  Stays h op s = static h ≡ true → ChangesState s op → ⊥

  record Guarded (op : Opcode) (m : Act H CreateInterrupt CallInterrupt (Unit {0})) : Type 0 where
    at : (h : H) → Good h → FromAt C R h (Stays h op) m

  module _ {op : Opcode} {m : Act H CreateInterrupt CallInterrupt (Unit {0})} where
    Guarded-From : ((h : H) → Good h → From C R h m) → Guarded op m
    Guarded-From k = record { at = λ h good. record { at = λ r i l q. (k h good).at r i l } }

    Guarded-change :
        ((s : Stack) → ChangesState s op)
        → ((h : H) → Good h → static h ≡ false → From C R h m)
        → Guarded op m
    Guarded-change c k = record {
      at = λ h good. record {
        at = λ r i l q. elim (Bool-cases (static h)) [
          | inl e ↦ elim (q e (c r.machine.stack)) [ ]
          | inr e ↦ (k h good e).at r i l
        ];
      };
    }

  Guarded-reading :
      (op : Opcode) (f : Context → List ℕ → Handler → Exec (Unit {0})) → Guarded op (reading T f)
  unfolding reading
  Guarded-reading op f =
      Guarded-From
        (λ h good. record { at = λ r i l. (From-on_machine {C = C} {R = R} {h = h} _).at r i l })

  ZeroAt-Stays : (h : H) (s : Stack) → static h ≡ true → Stays h Opcode.call s → ZeroAt 2 s
  ZeroAt-Stays h s e stays v p = elim (Bool-cases (U.from_big_endian v == 0)) [
    | inl z ↦ ground arith
    | inr z ↦ elim (stays e (ChangesState.call v p (ground arith))) [ ]
  ]

  Guarded-call : Guarded Opcode.call (Effects.call T Context.call)
  Guarded-call = record {
    at = λ h good. record {
      at = λ r i l q. elim (Bool-cases (static h)) [
        | inl e ↦ (From-call_nothing L h good).at r i l (ZeroAt-Stays h r.machine.stack e q)
        | inr e ↦ (From-call L h Context.call good e).at r i l
      ];
    };
  }

  data AllGuarded : Arms T → Type 0 where
    nil : AllGuarded []
    cons :
        {rest : Arms T} (o : Opcode) {m : Act H CreateInterrupt CallInterrupt (Unit {0})}
        → Guarded o m
        → AllGuarded rest
        → AllGuarded ((o, m) ∷ rest)

  infixr 5 ◌▸◌
  ◌▸◌ :
      {rest : Arms T} {o : Opcode} {m : Act H CreateInterrupt CallInterrupt (Unit {0})}
      → Guarded o m
      → AllGuarded rest
      → AllGuarded ((o, m) ∷ rest)
  g ▸ k = cons _ g k

  From-handle_other : (h : H) (op : Opcode) → From C R h (handle_other T op)
  unfolding handle_other
  From-handle_other h op = record {
    at = λ r i l.
        by_result h (T.other i op r.machine).0 r (T.other i op r.machine).1 _
          (L.then l (L.other i op r.machine));
  }
    where
      by_result :
          (h : H) (x : Result ExitError (Unit {0})) (r : Runtime) (machine : Machine) (i : H)
          → R h i
          → IsFine C {A = Result (Control CreateInterrupt CallInterrupt) (Unit {0}) × Runtime × H}
              (λ y. R h y.2)
              (elim x [
                | ok _ ↦ returned (ok tt, record r { machine = machine }, i)
                | err e ↦ returned (err (exit (error e)), record r { machine = machine }, i)
              ])
      by_result h (ok u) r machine i k = fine _ k
      by_result h (err e) r machine i k = fine _ k

  FromAt-arm_in :
      {l : Arms T} (op : Opcode) (h : H)
      → AllGuarded l
      → Good h
      → FromAt C R h (Stays h op) (arm_in T l op)
  unfolding arm_in
  FromAt-arm_in op h nil good = record { at = λ r i l q. (From-handle_other h op).at r i l }
  FromAt-arm_in op h (cons o {m} g rest) good = elim (Bool-cases (o == op)) [
    | inl e ↦ rw e (subst (λ p. FromAt C R h (Stays h p) m) ((==_iff o op).0 e) (g.at h good))
    | inr e ↦ rw e (FromAt-arm_in op h rest good)
  ]

  Guarded-sstore : Guarded Opcode.sstore (Effects.sstore T)
  Guarded-sstore = Guarded-change (λ s. ChangesState.sstore) (λ h good e. From-sstore L h e)

  Guarded-log0 : Guarded Opcode.log0 (Effects.log T 0)
  Guarded-log0 = Guarded-change (λ s. ChangesState.log0) (λ h good e. From-log_op L h e 0)

  Guarded-log1 : Guarded Opcode.log1 (Effects.log T 1)
  Guarded-log1 = Guarded-change (λ s. ChangesState.log1) (λ h good e. From-log_op L h e 1)

  Guarded-log2 : Guarded Opcode.log2 (Effects.log T 2)
  Guarded-log2 = Guarded-change (λ s. ChangesState.log2) (λ h good e. From-log_op L h e 2)

  Guarded-log3 : Guarded Opcode.log3 (Effects.log T 3)
  Guarded-log3 = Guarded-change (λ s. ChangesState.log3) (λ h good e. From-log_op L h e 3)

  Guarded-log4 : Guarded Opcode.log4 (Effects.log T 4)
  Guarded-log4 = Guarded-change (λ s. ChangesState.log4) (λ h good e. From-log_op L h e 4)

  Guarded-suicide : Guarded Opcode.suicide (Effects.suicide T)
  Guarded-suicide = Guarded-change (λ s. ChangesState.suicide) (λ h good e. From-suicide L h e)

  Guarded-create :
      (keccak256 : List ℕ → H256) → Guarded Opcode.create (Effects.create T keccak256 false)
  Guarded-create keccak256 =
      Guarded-change (λ s. ChangesState.create) (λ h good e. From-create L h e good keccak256 false)

  Guarded-create2 :
      (keccak256 : List ℕ → H256) → Guarded Opcode.create2 (Effects.create T keccak256 true)
  Guarded-create2 keccak256 =
      Guarded-change (λ s. ChangesState.create2) (λ h good e. From-create L h e good keccak256 true)

  Guarded-callcode : Guarded Opcode.callcode (Effects.call T Context.call_code)
  Guarded-callcode = Guarded-From (λ h good. From-call_code L h good)

  Guarded-delegatecall : Guarded Opcode.delegatecall (Effects.call T Context.delegate_call)
  Guarded-delegatecall = Guarded-From (λ h good. From-delegate_call L h good)

  Guarded-staticcall : Guarded Opcode.staticcall (Effects.call T Context.static_call)
  Guarded-staticcall = Guarded-From (λ h good. From-static_call L h good)

  AllGuarded-arms : (keccak256 : List ℕ → H256) → AllGuarded (arms T keccak256)
  AllGuarded-arms keccak256 =
      Guarded-reading _ _
      ▸ Guarded-reading _ _
      ▸ Guarded-reading _ _
      ▸ Guarded-reading _ _
      ▸ Guarded-reading _ _
      ▸ Guarded-reading _ _
      ▸ Guarded-reading _ _
      ▸ Guarded-reading _ _
      ▸ Guarded-reading _ _
      ▸ Guarded-reading _ _
      ▸ Guarded-reading _ _
      ▸ Guarded-reading _ _
      ▸ Guarded-reading _ _
      ▸ Guarded-reading _ _
      ▸ Guarded-reading _ _
      ▸ Guarded-reading _ _
      ▸ Guarded-reading _ _
      ▸ Guarded-reading _ _
      ▸ Guarded-reading _ _
      ▸ Guarded-reading _ _
      ▸ Guarded-sstore
      ▸ Guarded-reading _ _
      ▸ Guarded-log0
      ▸ Guarded-log1
      ▸ Guarded-log2
      ▸ Guarded-log3
      ▸ Guarded-log4
      ▸ Guarded-suicide
      ▸ Guarded-create keccak256
      ▸ Guarded-create2 keccak256
      ▸ Guarded-call
      ▸ Guarded-callcode
      ▸ Guarded-delegatecall
      ▸ Guarded-staticcall
      ▸ Guarded-reading _ _
      ▸ nil

  -- An opcode that a static handler lets through does not panic, and makes of the handler what `R` allows.
  pub FromAt-eval :
      (keccak256 : List ℕ → H256) (op : Opcode) (h : H)
      → Good h
      → FromAt C R h (Stays h op) (eval T keccak256 op)
  unfolding eval
  FromAt-eval keccak256 op h good = FromAt-arm_in op h (AllGuarded-arms keccak256) good
