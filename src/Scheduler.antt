-- ===== src/Scheduler.antt =====
-- The execution of the nodes (node.c) and the thread that drives it (msvl.c), as the scheduling
-- thread runs them.
pub mod World
pub mod Handshake
pub mod Renew
pub mod Execute
pub mod Update
pub mod Drain
pub mod Startup
pub mod Keeps
pub mod Endless
pub mod Returns
pub mod Renewed
pub mod Examples
