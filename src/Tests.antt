-- ===== src/Tests.antt =====
-- Runs of the definitions, and the theorems at concrete data.
pub mod Samples
pub mod Heap
pub mod Machine
pub mod Threads
pub mod Runs
pub mod Digest
pub mod Loading
