-- ===== src/Api/Laws.antt =====
-- What the system calls do.
pub mod Break
pub mod Copy
pub mod Print
