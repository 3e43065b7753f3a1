-- ===== src/Lib.antt =====
-- SputnikVM: an implementation of the Ethereum virtual machine. This library models its core, the crate
-- under core/, in which a machine executes the opcodes that need nothing but the machine's own stack,
-- memory, code and call data, and traps on the others; the gasometer, the crate under gasometer/, which prices the opcodes and keeps
-- the record of what was paid; the runtime, the crate under runtime/, which executes the system opcodes; and,
-- under src/, the backends and the executor, whose substates are entered and exited around each call,
-- and which runs transactions.
--
-- The parts, and the files that model them:
--
-- - PrimitiveTypes: the types U256 and H256 of the crate primitive-types, which is not in the
--   repository. It is an interface: a record `U256Ops` of its operations, with their documented behaviour
--   as laws. A U256 is the number that it holds, an H256 its 32 bytes. Every definition that uses an
--   operation takes the record as an instance argument. PrimitiveTypes.Native is a value of it.
-- - Core.Error (core/src/error.rs): exit reasons and captures.
-- - Core.Opcode (core/src/opcode.rs): each opcode is a constant under its name in lower case (MOD is
--   `mod_op`), and `is_push`.
-- - Core.Stack (core/src/stack.rs): `Stack` with its vector of items and its limit. View and Bounds hold
--   the proofs.
-- - Core.Memory (core/src/memory.rs): `Memory` with its bytes, effective length and limit. A loop is
--   recursion on the rounds left. The loop of `resize_end` gets 32 rounds: from any end it meets a
--   multiple of 32 within these (Core.Memory.Resize). A `usize` has 64 bits, and the sum that `get`
--   computes wraps around. An index of the loop of `set` that panics ends the loop with none.
-- - Core.Valids (core/src/valids.rs): the map of valid jump destinations. The scan gets as many rounds as
--   the code has bytes; it moves on in each.
-- - Core.Utils (core/src/utils.rs): the signed view `I256` of a word.
-- - Core.Arithmetic and Core.Bitwise (core/src/eval/arithmetic.rs, core/src/eval/bitwise.rs): the opcodes
--   that compute with words. The loop of `exp` gets 256 rounds, one for each bit of the exponent.
-- - Core.Exec (core/src/eval/macros.rs): a handler of an opcode changes the machine and may return early
--   with a control; what it did before stays done. So it is an action `Machine -> Result Control A x
--   Machine`, and a macro is an action.
-- - Core.Misc (core/src/eval/misc.rs): the handlers of stack, code, call data, memory, jumps and exits.
-- - Core.Eval (core/src/eval/mod.rs): the handler of each opcode and the table of handlers. The handlers
--   of PUSH1 to PUSH32, DUP1 to DUP16 and SWAP1 to SWAP16 are one definition each, with the count as its
--   argument.
-- - Core.Machine and Core.Step (core/src/lib.rs): the machine, a step, and a run. A run gets the number
--   of steps as fuel, since a code may loop forever; a statement about runs holds for every number.
-- - Runtime.Config (runtime/src/lib.rs): the configuration of a hard fork, which the prices depend on.
-- - Gasometer.Consts, Gasometer.Memory, Gasometer.Log2 and Gasometer.Costs (consts.rs, memory.rs, utils.rs
--   and costs.rs under gasometer/src/): prices. The sums of `u64` and `i64` wrap around (Base.U64).
-- - Gasometer.Cost, Gasometer.Inner and Gasometer.Meter (gasometer/src/lib.rs): costs, the record of what
--   was paid, and the gasometer. An operation returns its result and the gasometer after it;
--   `Inner::memory_gas` is `charge`.
-- - Gasometer.Static and Gasometer.Dynamic (gasometer/src/lib.rs): the opcodes with a static cost, and the
--   cost of the others, by arms of the two matches. Gasometer.Dynamic.StaticMode is about static machines.
-- - Runtime.Context and Runtime.Handler (runtime/src/context.rs, runtime/src/handler.rs): what describes a
--   call or a creation, and what a handler answers without changing.
-- - Runtime.System (runtime/src/eval/system.rs): the system opcodes that only read what is outside the
--   machine, as actions on the machine; what they read of the runtime and of the handler is an argument.
-- - Runtime.Trait (runtime/src/handler.rs): the trait of a handler as a record of functions, over any type of
--   handler and of interrupts.
-- - Runtime.Act and Runtime.Effects (runtime/src/lib.rs, runtime/src/eval/): the runtime, and the system opcodes that
--   change what is outside the machine, as actions on the runtime and its handler.
-- - Runtime.Eval and Runtime.Step (runtime/src/eval/mod.rs, runtime/src/lib.rs): the dispatch, a step and a
--   run of a runtime, and the interrupts.
-- - Backend and Backend.Memory (src/backend/): the trait `Backend` as a record of functions, and the memory
--   backend with the changes that are applied to it.
-- - Executor.Metadata (src/executor/stack/mod.rs): `StackSubstateMetadata`.
-- - Executor.State (src/executor/stack/state.rs): `MemoryStackSubstate`. A substate owns its parent, so that
--   the chain is a list of frames. An exit of the root, which panics, gives `none`. State.Known has what the
--   chain knows, State.Change the operations on the current frame, State.Deconstruct the changes of the
--   root. State.Nesting is the relation of what may happen between an enter and its exit; the other
--   children hold proofs.
-- - Executor.StackState (src/executor/stack/state.rs): `MemoryStackState`, a substate over a backend. The
--   trait `StackState` has this one implementation. StackState.Applied joins it with Backend.Memory: the
--   changes of the root are applied to the backend under it.
-- - Executor.Stack (src/executor/stack/mod.rs): `StackExecutor`, its handler, and the fees. The crates
--   `sha3` and `rlp` are the record `Crates`, a precompiled contract is a function of the executor.
--   Stack.Inner, Stack.Create and Stack.Call have the creations and calls, Stack.Transact the execution, the handler
--   and the transactions.
--
-- A step fetches the opcode at the position, gives it to the handler in the table, and follows the
-- control that comes back. Jumps ask the map of valid destinations, which is made from the code when the
-- machine is made. The proofs that each handler keeps the machine sound go by rules for the actions that
-- it is made of (Core.Exec.Keeps, Core.Exec.Macros, Core.Misc.Keeps, Core.Eval.Keeps, Core.Step.Safety).
--
-- When a substate is entered, a frame is put before its parents, with a gasometer of its own. An exit
-- takes it off: a commit merges its maps into the parent's, a revert gives only its gas back, a discard
-- gives nothing back. Pre-validation pays for an opcode out of the gasometer of the current frame.
--
-- Base holds what the files share: tests on numbers, lists measured by numbers, results, integers, lemmas
-- on bits, and the `BTreeMap` and `BTreeSet` of the standard library as sorted lists of entries (Base.Key,
-- Base.Map), with the laws of a map. Tests applies the theorems to concrete inputs.
--
-- A transaction pays for itself and is then a creation or a call (`create_inner`, `call_inner`), which
-- reserves gas, enters a substate, transfers the value, makes a runtime and executes it, and exits the
-- substate by the reason that the execution ends in. The system opcodes of the runtime call the handler,
-- which is the executor, so that the definitions are closed by fuel: `execute` gets the number of steps
-- of a run, and one less of the fuel is what the executions inside it get. What panics in the source is
-- an outcome of its own, apart from the end of the fuel (Base.Outcome), and the panic of `+=` on a nonce
-- that is the largest `U256` is one more. A statement holds for every fuel, says of what is returned that
-- it holds and of a panic that there is none, and says where a nonce may overflow. What `as_usize` and `as_u64`
-- answer for a number that does not fit, where they panic, is left open: nothing is known of it. A step costs one of
-- the fuel and so does an execution inside another, so that a fuel above both numbers is enough.
--
-- The proofs about runs are made once, for any handler: Runtime.Laws has what an invariant of a handler
-- is, as laws of its operations, Runtime.Act.From and Runtime.Effects.From the rules for the actions that the
-- opcodes are made of, and Runtime.Step.From the run. Executor.Stack.Transact.Goes fills the laws with
-- what the executor goes through (Executor.StackState.Nested), and Executor.StackState.Quiet is about what
-- is seen of a state. Of the precompiled contracts they rely on `IsOrderly` (Executor.Stack.Goes): they
-- leave the substates nested as they found them, and record no logs in a static one.
--
-- Not modelled: the functions `create_feedback` and `call_feedback` of a handler, which nothing calls;
-- serialisation, tracing events, the capacity of vectors, and running out of memory.
pub mod Base
pub mod PrimitiveTypes
pub mod Core
pub mod Gasometer
pub mod Executor
pub mod Tests
pub mod Backend
pub mod Runtime
