-- ===== src/Manager.antt =====
-- msvl.c: the interface of the library to a running MSVL program.
pub mod Push
pub mod Tokens
pub mod Examples
