-- ===== src/Machine.antt =====
-- The C machine below the library: size_t arithmetic, byte memory with memcpy and memmove, and the
-- allocator of the C library, which is a parameter.
pub mod Word
pub mod Memory
pub mod Allocator
pub mod Sample
