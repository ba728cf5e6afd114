-- ===== src/Machine/Sound.antt =====
-- Kernel/src/kernel.go: the primitives keep a machine sound.
pub mod Texts
pub mod States
pub mod Reads
pub mod Records
pub mod Programs
pub mod Calls
pub mod Run
pub mod Execution
