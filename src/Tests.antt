-- ===== src/Tests.antt =====
-- Concrete runs: the theorems applied to inputs that exercise the code.
mod Stack
mod Memory
mod Words
mod Steps
mod Gas
mod State
mod Executor
mod Calls
