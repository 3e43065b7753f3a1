-- ===== src/Executor.antt =====
-- src/executor/: the stack executor, from the substates up.
pub mod Metadata
pub mod State
pub mod StackState
pub mod Stack
