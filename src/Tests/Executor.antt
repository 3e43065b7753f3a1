-- ===== src/Tests/Executor.antt =====
-- src/executor/stack/mod.rs on concrete executors.
use sputnikvm.Base.{◌*◌, ◌≤◌, true, ◌∷◌, [], none, ok, ◌≡◌, ◌≢◌, refl, arith}
use sputnikvm.Base.Int.{negsuc}
use sputnikvm.PrimitiveTypes.{zero_h256}
use sputnikvm.PrimitiveTypes.Native.{native_ops}
use sputnikvm.Core.Opcode
use sputnikvm.Core.Stack as Core
use sputnikvm.Runtime.Config.{istanbul}
use sputnikvm.Runtime.Context.{Context}
use sputnikvm.Gasometer.Meter as Gasometer
use sputnikvm.Gasometer.Dynamic.StaticMode.{ChangesState}
use sputnikvm.Executor.StackState as StackState
use sputnikvm.Executor.Stack.{
  Crates, StackExecutor, no_precompile, gasometer, balance, used_gas, mark_delete, pre_validate,
}
use sputnikvm.Executor.Stack.Validate.{pre_validate-static}
use sputnikvm.Executor.Stack.Fee.{used_gas_lem}
use sputnikvm.Executor.Stack.Delete.{mark_delete_lem}
use sputnikvm.Tests.State.{alice, bob, backend, parent, running_meter}

-- Any functions will do: no example depends on a hash.
instance abbrev pub crates : Crates
crates = record { keccak256 = λ bytes. zero_h256; rlp_list = λ address nonce. [] }

-- A static substate, whose counter of refunds is negative.
abbrev pub executor : StackExecutor
executor = record {
  config = istanbul;
  precompile = no_precompile;
  state = record {
    backend = backend;
    substate = record {
      top = record parent {
        metadata = record {
          gasometer = record running_meter {
            inner = ok record {
              memory_gas = 0;
              used_gas = 600;
              refunded_gas = negsuc 4;
              config = istanbul;
            };
          };
          is_static = true;
          depth = none;
        };
      };
      parents = [];
    };
  };
}

abbrev pub context : Context
context = record { address = alice; caller = bob; apparent_value = 0 }

abbrev operands : Core.Stack
operands = record { data_items = zero_h256 ∷ zero_h256 ∷ []; limit = 1024 }

pre_validate-static_example : (pre_validate executor context Opcode.sstore operands).0 ≢ ok tt
pre_validate-static_example =
    pre_validate-static executor context Opcode.sstore operands refl ChangesState.sstore

used_gas_lem_example :
    (used_gas executor ≡ 300) × (used_gas executor ≤ 600) × (600 ≤ 2 * used_gas executor)
unfolding gasometer Gasometer.total_used_gas Gasometer.refunded_gas
used_gas_lem_example = used_gas_lem executor (omega arith) (omega arith)

mark_delete_lem_example :
    ((mark_delete executor alice bob).0 ≡ ok tt)
    × (StackState.deleted (mark_delete executor alice bob).1.state alice ≡ true)
    × (balance (mark_delete executor alice bob).1 alice ≡ 0)
mark_delete_lem_example = mark_delete_lem executor alice bob alice
