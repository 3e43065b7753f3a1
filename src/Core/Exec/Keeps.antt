-- ===== src/Core/Exec/Keeps.antt =====
-- core/src/eval/macros.rs: rules for what an action keeps of a machine, one for each way to build it.
use sputnikvm.Base.{ℕ, ◌≡◌, refl, Bool, true, false, List, ok, err, if◌then◌else◌}
use sputnikvm.Base.Result.{Result}
use sputnikvm.Core.Error.{ExitError, ExitFatal, ExitReason}
use sputnikvm.Core.Stack.{Stack}
use sputnikvm.Core.Stack.Bounds as StackBounds
use sputnikvm.Core.Stack.Bounds.{pop-Fits, push-Fits}
use sputnikvm.Core.Memory.{Memory}
use sputnikvm.Core.Memory.Bounds as MemoryBounds
use sputnikvm.Core.Valids
use sputnikvm.Core.Machine.{Machine}
use sputnikvm.Core.Exec.{
  Control, continue, exit, jump, trap, Exec, control_of, pure, stop, gets, with_stack, with_memory,
  with_memory_fatal, or_exit, or_exit_fatal, go_on, ◌>>=◌,
}

-- The parts of a machine agree with its code and keep to the limits that it was given.
pub record IsSound (code : List ℕ) (stack_limit memory_limit : ℕ) (s : Machine) : Type 0 where
  pub same_code : s.code ≡ code
  pub same_valids : s.valids ≡ Valids.new code
  pub stack_fits : StackBounds.Fits stack_limit s.stack
  pub memory_fits : MemoryBounds.Fits memory_limit s.memory

-- What a handler may ask for at an instruction of `size` bytes: to go on at the next instruction, to
-- jump to a valid destination, to exit, or to trap, if the instruction is one byte long.
abbrev pub Allowed : List ℕ → ℕ → Control → Type 0
Allowed code size (continue p) = p ≡ size
Allowed code size (jump p) = Valids.is_valid (Valids.new code) p ≡ true
Allowed code size (exit e) = Unit {0}
Allowed code size (trap o) = size ≡ 1

-- The results of an action that stops early, if at all, by an exit.
pub data EarlyExit {A : Type 0} : Result Control A → Type 0 where
  went_on : (a : A) → EarlyExit (ok a)
  exited : (e : ExitReason) → EarlyExit (err (exit e))

module _ (code : List ℕ) (stack_limit memory_limit : ℕ) where
  -- The action keeps the machine sound, and stops early by an exit alone.
  pub record Keeps {A : Type 0} (m : Exec A) : Type 0 where
    pub at :
        (s : Machine)
        → IsSound code stack_limit memory_limit s
        → IsSound code stack_limit memory_limit (m s).1 × EarlyExit (m s).0

  -- The handler keeps the machine sound, and asks for what an instruction of `size` bytes may ask for.
  pub record Handles (size : ℕ) (m : Exec Control) : Type 0 where
    pub at :
        (s : Machine)
        → IsSound code stack_limit memory_limit s
        → IsSound code stack_limit memory_limit (m s).1 × Allowed code size (control_of (m s).0)

or_exit-EarlyExit : {A : Type 0} (r : Result ExitError A) → EarlyExit (or_exit r)
or_exit-EarlyExit (ok a) = went_on a
or_exit-EarlyExit (err e) = exited _

or_exit_fatal-EarlyExit : {A : Type 0} (r : Result ExitFatal A) → EarlyExit (or_exit_fatal r)
or_exit_fatal-EarlyExit (ok a) = went_on a
or_exit_fatal-EarlyExit (err e) = exited _

module _ {code : List ℕ} {sl ml : ℕ} {A : Type 0} where
  pub Keeps-pure : (a : A) → Keeps code sl ml (pure a)
  unfolding pure
  Keeps-pure a = record { at = λ s h. (h, went_on a) }

  pub Keeps-stop : (e : ExitReason) → Keeps code sl ml (stop {A = A} (exit e))
  unfolding stop
  Keeps-stop e = record { at = λ s h. (h, exited e) }

  pub Keeps-gets : (f : Machine → A) → Keeps code sl ml (gets f)
  unfolding gets
  Keeps-gets f = record { at = λ s h. (h, went_on (f s)) }

  pub Keeps-if :
      (b : Bool) (m n : Exec A)
      → Keeps code sl ml m
      → Keeps code sl ml n
      → Keeps code sl ml (if b then m else n)
  Keeps-if true m n km kn = km
  Keeps-if false m n km kn = kn

  pub Keeps-with_stack :
      (f : Stack → Result ExitError A × Stack)
      → ((s : Stack) → StackBounds.Fits sl s → StackBounds.Fits sl (f s).1)
      → Keeps code sl ml (with_stack f)
  unfolding with_stack
  Keeps-with_stack f kf = record {
    at = λ s h. (
      record {
        same_code = h.same_code;
        same_valids = h.same_valids;
        stack_fits = kf s.stack h.stack_fits;
        memory_fits = h.memory_fits;
      },
      or_exit-EarlyExit (f s.stack).0,
    );
  }

  pub Keeps-with_memory :
      (f : Memory → Result ExitError A × Memory)
      → ((m : Memory) → MemoryBounds.Fits ml m → MemoryBounds.Fits ml (f m).1)
      → Keeps code sl ml (with_memory f)
  unfolding with_memory
  Keeps-with_memory f kf = record {
    at = λ s h. (
      record {
        same_code = h.same_code;
        same_valids = h.same_valids;
        stack_fits = h.stack_fits;
        memory_fits = kf s.memory h.memory_fits;
      },
      or_exit-EarlyExit (f s.memory).0,
    );
  }

  pub Keeps-with_memory_fatal :
      (f : Memory → Result ExitFatal A × Memory)
      → ((m : Memory) → MemoryBounds.Fits ml m → MemoryBounds.Fits ml (f m).1)
      → Keeps code sl ml (with_memory_fatal f)
  unfolding with_memory_fatal
  Keeps-with_memory_fatal f kf = record {
    at = λ s h. (
      record {
        same_code = h.same_code;
        same_valids = h.same_valids;
        stack_fits = h.stack_fits;
        memory_fits = kf s.memory h.memory_fits;
      },
      or_exit_fatal-EarlyExit (f s.memory).0,
    );
  }

module _ {code : List ℕ} {sl ml : ℕ} {A B : Type 0} where
  go_on-Keeps :
      {r : Result Control A} (f : A → Exec B) (s : Machine)
      → EarlyExit r
      → IsSound code sl ml s
      → ((a : A) → Keeps code sl ml (f a))
      → IsSound code sl ml (go_on r f s).1 × EarlyExit (go_on r f s).0
  go_on-Keeps f s (went_on a) h kf = (kf a).at s h
  go_on-Keeps f s (exited e) h kf = (h, exited e)

  pub Keeps-bind :
      (m : Exec A) (f : A → Exec B)
      → Keeps code sl ml m
      → ((a : A) → Keeps code sl ml (f a))
      → Keeps code sl ml (m >>= f)
  unfolding ◌>>=◌
  Keeps-bind m f km kf = record { at = λ s h. go_on-Keeps f (m s).1 (km.at s h).1 (km.at s h).0 kf }

module _ {code : List ℕ} {sl ml size : ℕ} where
  pub Handles-continue : Handles code sl ml size (pure (continue size))
  unfolding pure
  Handles-continue = record { at = λ s h. (h, refl) }

  pub Handles-exit : (e : ExitReason) → Handles code sl ml size (pure (exit e))
  unfolding pure
  Handles-exit e = record { at = λ s h. (h, tt) }

  pub Handles-stop : (e : ExitReason) → Handles code sl ml size (stop (exit e))
  unfolding stop
  Handles-stop e = record { at = λ s h. (h, tt) }

  pub Handles-if :
      (b : Bool) (m n : Exec Control)
      → Handles code sl ml size m
      → Handles code sl ml size n
      → Handles code sl ml size (if b then m else n)
  Handles-if true m n km kn = km
  Handles-if false m n km kn = kn

module _ {code : List ℕ} {sl ml size : ℕ} {A : Type 0} where
  go_on-Handles :
      {r : Result Control A} (f : A → Exec Control) (s : Machine)
      → EarlyExit r
      → IsSound code sl ml s
      → ((a : A) → Handles code sl ml size (f a))
      → IsSound code sl ml (go_on r f s).1 × Allowed code size (control_of (go_on r f s).0)
  go_on-Handles f s (went_on a) h kf = (kf a).at s h
  go_on-Handles f s (exited e) h kf = (h, tt)

  pub Handles-bind :
      (m : Exec A) (f : A → Exec Control)
      → Keeps code sl ml m
      → ((a : A) → Handles code sl ml size (f a))
      → Handles code sl ml size (m >>= f)
  unfolding ◌>>=◌
  Handles-bind m f km kf = record {
    at = λ s h. go_on-Handles f (m s).1 (km.at s h).1 (km.at s h).0 kf;
  }

pub ruleset exec_rules = (
  Keeps-pure, Keeps-stop, Keeps-gets, Keeps-if, Keeps-bind, Keeps-with_stack, Keeps-with_memory,
  Keeps-with_memory_fatal, Handles-continue, Handles-exit, Handles-stop, Handles-if, Handles-bind,
)
