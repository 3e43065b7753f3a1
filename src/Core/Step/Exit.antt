-- ===== src/Core/Step/Exit.antt =====
-- core/src/lib.rs: a machine that has exited.
use sputnikvm.Base.{ℕ, ◌≡◌, refl, ap, Option-cases, get_elem?, ok, err, inl, inr}
use sputnikvm.PrimitiveTypes.{U256Ops}
use sputnikvm.Core.Error.{ExitReason, Capture}
use sputnikvm.Core.Machine.{Machine}
use sputnikvm.Core.Exec.{Control, continue, exit, jump, trap}
use sputnikvm.Core.Eval.{eval}
use sputnikvm.Core.Step.{follow, step_at, step}

follow-exit :
    (r : ExitReason) (c : Control) (p : ℕ) (m : Machine)
    → (follow c p m).0 ≡ err (Capture.exit r)
    → (follow c p m).1.position ≡ err r
unfolding follow
follow-exit r (continue n) p m h = cc
follow-exit r (exit e) p m h = cc
follow-exit r (jump q) p m h = cc
follow-exit r (trap o) p m h = cc

module _ ⦃U : U256Ops⦄ where
  step_at-exit :
      (r : ExitReason) (m : Machine) (position : _)
      → m.position ≡ position
      → (step_at m position).0 ≡ err (Capture.exit r)
      → (step_at m position).1.position ≡ err r
  unfolding step_at
  step_at-exit r m (err e) same h = cc
  step_at-exit r m (ok p) same h = elim (Option-cases (get_elem? m.code p)) [
    | inl e ↦ cc
    | inr (opcode, e) ↦
        rw (e, step_at)
          (follow-exit r (eval opcode p m).0 p (eval opcode p m).1 (rw (e, step_at) at h))
  ]

  step-exited :
      (m : Machine) (r : ExitReason) → m.position ≡ err r → step m ≡ (err (Capture.exit r), m)
  unfolding step step_at
  step-exited m r h = ap (step_at m) h

  -- After a step that exits, each further step exits with the same reason and changes nothing.
  pub step-step-exit :
      (m : Machine) (r : ExitReason)
      → (step m).0 ≡ err (Capture.exit r)
      → step (step m).1 ≡ (err (Capture.exit r), (step m).1)
  step-step-exit m r h =
      step-exited (step m).1 r (unfold step in step_at-exit r m m.position refl (unfold step in h))
