-- ===== src/Core/Machine/Inspect.antt =====
-- core/src/lib.rs: what is inspected at a position in the code.
use sputnikvm.Base.{ℕ, some, ok, ◌≡◌, refl, get_elem?}
use sputnikvm.Core.Opcode.{Opcode}
use sputnikvm.Core.Machine.{Machine, inspect, inspect_at}

pub inspect-some :
    (m : Machine) (position : ℕ) (op : Opcode)
    → m.position ≡ ok position
    → get_elem? m.code position ≡ some op
    → inspect m ≡ some (op, m.stack)
unfolding inspect
inspect-some m position op h g = rw (h, inspect_at, g) refl
