-- ===== src/Exec/Laws.antt =====
-- What the cases of the `switch` of simulator/cpu.c compute.
pub mod Compare
pub mod Rotate
pub mod Divide
pub mod Constants
pub mod Count
pub mod Link
pub mod Stack
pub mod Transfers
