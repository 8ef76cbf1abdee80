-- ===== src/DynArray/Contract.antt =====
-- What the public functions of dyn_array.c do to the list of objects of an array.
pub mod Insert
pub mod Remove
pub mod Create
pub mod View
pub mod Destroy
pub mod Order
pub mod Visit
pub mod Refused
