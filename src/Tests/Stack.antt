-- ===== src/Tests/Stack.antt =====
-- core/src/stack.rs on concrete stacks.
use sputnikvm.Base.{◌≡◌, [], ◌∷◌}
use sputnikvm.PrimitiveTypes.{H256}
use sputnikvm.PrimitiveTypes.Native.{digits}
use sputnikvm.Core.Stack.{Stack, pop, push, peek, set}
use sputnikvm.Core.Stack.View.{stack_refines, view, pop_view, push_view, peek_view, set_view}

abbrev item : H256
item = digits 32 7

-- Two items of at most three.
abbrev two_items : Stack
two_items = record { data_items = digits 32 5 ∷ digits 32 6 ∷ []; limit = 3 }

stack_refines_example :
    (((pop two_items).0, view (pop two_items).1) ≡ pop_view (view two_items))
    × (((push two_items item).0, view (push two_items item).1) ≡ push_view 3 (view two_items) item)
    × (peek two_items 1 ≡ peek_view (view two_items) 1)
    × (((set two_items 1 item).0, view (set two_items 1 item).1) ≡ set_view (view two_items) 1 item)
stack_refines_example = stack_refines two_items 1 item
