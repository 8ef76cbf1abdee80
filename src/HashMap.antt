-- ===== src/HashMap.antt =====
-- dyn_hash_map.c: a table of dynamic arrays whose length is a prime. The header also declares
-- insert and find, which the repository does not define.
pub mod Primes
pub mod Table
pub mod Primality
pub mod Capacity
pub mod Contract
mod Examples
