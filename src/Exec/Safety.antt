-- ===== src/Exec/Safety.antt =====
-- Every round of the interpreter keeps the machine well formed and its block in place.
pub mod Cases
pub mod Machine
pub mod Calls
pub mod Rounds
