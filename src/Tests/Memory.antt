-- ===== src/Tests/Memory.antt =====
-- core/src/memory.rs on concrete memories.
use sputnikvm.Base.{ℕ, ◌+◌, ◌≤◌, ◌<◌, ◌≡◌, ◌⊎◌, [], ◌∷◌, List, arith, some, none, ok, err, length}
use sputnikvm.PrimitiveTypes.Native.{native_ops}
use sputnikvm.Core.Error.{not_supported}
use sputnikvm.Core.Memory.{Memory, get, set, resize_offset}
use sputnikvm.Core.Memory.Access.{byte_at, get_lem}
use sputnikvm.Core.Memory.Resize.{grown_to, resize_offset_lem}
use sputnikvm.Core.Memory.Write.{IsWritten, set_lem, get-set}

-- Two bytes of at most 64.
abbrev two_bytes : Memory
two_bytes = record { bytes = 1 ∷ 2 ∷ []; effective_len = 32; limit = 64 }

get_lem_example :
    (length (get two_bytes 1 4) ≡ 4)
    × ((i : ℕ) → i < 4 → byte_at (get two_bytes 1 4) i ≡ byte_at two_bytes.bytes (1 + i))
get_lem_example = get_lem two_bytes 1 4 (omega arith) (omega arith)

resize_offset_lem_example : resize_offset two_bytes 33 3 ≡ (ok tt, grown_to two_bytes 64)
resize_offset_lem_example = resize_offset_lem two_bytes 33 3

abbrev value : List ℕ
value = 9 ∷ 8 ∷ 7 ∷ []

set_lem_example :
    ((60 + 4 ≤ 64)
      × ((set two_bytes 60 value (some 4)).0 ≡ ok tt)
      × IsWritten two_bytes (set two_bytes 60 value (some 4)).1 60 4 value)
    ⊎ ((64 < 60 + 4) × (set two_bytes 60 value (some 4) ≡ (err not_supported, two_bytes)))
set_lem_example = set_lem two_bytes 60 4 value (omega arith) (omega arith)

get-set_example : get (set two_bytes 10 value none).1 10 3 ≡ value
get-set_example = get-set two_bytes 10 value (omega arith) (omega arith) (omega arith)
