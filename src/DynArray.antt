-- ===== src/DynArray.antt =====
-- dyn_array.h and dyn_array.c: the array of objects of one size in a byte buffer that grows.
-- A `dyn_array_t *` is `Option DynArray`; a function that changes `*dyn_arr` returns the new one.
-- `Shift` has the two core functions, and the modules below it the families that call them.
pub mod Layout
pub mod Shift
pub mod Create
pub mod Holds
pub mod Growth
pub mod Insertion
pub mod Removing
pub mod Views
pub mod Ordered
pub mod Contract
mod Examples
