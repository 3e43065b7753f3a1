-- ===== src/Base/Outcome.antt =====
-- What a computation ends in: a value, a panic, or the end of its fuel. The panic of an addition of `U256`s
-- whose sum is too large is apart from the others.

pub data Outcome (A : Type 0) : Type 0 where
  returned : A → Outcome A
  panicked overflowed out_of_fuel : Outcome A

module _ {A B : Type 0} where
  abbrev pub bind_outcome : Outcome A → (A → Outcome B) → Outcome B
  bind_outcome (returned a) f = f a
  bind_outcome panicked f = panicked
  bind_outcome overflowed f = overflowed
  bind_outcome out_of_fuel f = out_of_fuel

-- There is no panic, but that of an addition where `C` holds, and a value that is returned satisfies `P`.
pub data IsFine (C : Type 0) {A : Type 0} (P : A → Type 0) : Outcome A → Type 0 where
  fine : (a : A) → P a → IsFine C P (returned a)
  overflow : C → IsFine C P overflowed
  no_fuel : IsFine C P out_of_fuel

module _ {C : Type 0} where
  pub IsFine-bind_outcome :
      {A B : Type 0} {P : A → Type 0} {Q : B → Type 0} {o : Outcome A} (f : A → Outcome B)
      → IsFine C P o
      → ((a : A) → P a → IsFine C Q (f a))
      → IsFine C Q (bind_outcome o f)
  IsFine-bind_outcome f (fine a h) k = k a h
  IsFine-bind_outcome f (overflow c) k = overflow c
  IsFine-bind_outcome f no_fuel k = no_fuel

  pub IsFine-map :
      {A : Type 0} {P Q : A → Type 0} {o : Outcome A}
      → IsFine C P o
      → ((a : A) → P a → Q a)
      → IsFine C Q o
  IsFine-map (fine a h) k = fine a (k a h)
  IsFine-map (overflow c) k = overflow c
  IsFine-map no_fuel k = no_fuel
