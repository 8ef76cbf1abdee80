-- ===== src/Node/Verdict.antt =====
-- What the checks of node.c find about a statement whose children are all leaves.
pub mod Leaves
pub mod And
pub mod Pal
pub mod Prj
pub mod Ranks
pub mod Stops
