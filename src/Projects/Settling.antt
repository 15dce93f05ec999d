-- ===== src/Projects/Settling.antt =====
-- What startup leaves behind: `recover_interrupted_operations` of src/core/recovery.cpp on tables that
-- any history of the Project manager can leave.
pub mod Records
pub mod Entries
pub mod Engines
pub mod Loop
pub mod Histories
