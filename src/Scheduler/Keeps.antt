-- ===== src/Scheduler/Keeps.antt =====
-- The properties of the globals that the scheduling thread keeps.
pub mod Chains
pub mod Turn
pub mod Execute
pub mod Update
