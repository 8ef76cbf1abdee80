-- ===== src/Turns.antt =====
-- The turns that the scheduling thread gives to the other threads, as steps of all of them: node.c
-- and msvl.c.
pub mod Protocol
pub mod Exclusion
pub mod Progress
pub mod Examples
