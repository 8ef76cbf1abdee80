-- ===== src/Machine/Allocator.antt =====
-- malloc and realloc of the C library. An allocator answers the requests of one call of the
-- program: other calls may meet another one.
use lib_msvl.Base.{ℕ, ◌≤◌, ◌≡◌, Bool, Option, some, length, take}
use lib_msvl.Machine.Memory.{Bytes}

pub record Allocator : Type 0 where
  -- whether a struct can be allocated
  pub malloc_struct : Bool
  pub malloc : ℕ → Option Bytes
  pub realloc : Bytes → ℕ → Option Bytes

-- What the C standard says: a block has the size asked for, and realloc keeps the old bytes.
pub record IsAllocator (al : Allocator) : Type 0 where
  pub malloc-length : (n : ℕ) (b : Bytes) → al.malloc n ≡ some b → length b ≡ n
  pub realloc-length : (old : Bytes) (n : ℕ) (b : Bytes) → al.realloc old n ≡ some b → length b ≡ n
  pub realloc-take :
      (old : Bytes) (n : ℕ) (b : Bytes)
      → al.realloc old n ≡ some b
      → length old ≤ n
      → take (length old) b ≡ old
