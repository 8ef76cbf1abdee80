-- ===== src/DynArray/Create.antt =====
-- dyn_array_create, dyn_array_import and dyn_array_destroy of dyn_array.c.
use lib_msvl.Base.{
  ℕ, Bool, not, ◌&&◌, Option, none, some, [], List, leb, ltb, ◌==◌, if◌then◌else◌, Run, ok, fault,
  ◌>>=◌,
}
use lib_msvl.Machine.Word.{mul64}
use lib_msvl.Machine.Memory.{Bytes}
use lib_msvl.Machine.Allocator.{Allocator}
use lib_msvl.DynArray.Layout.{DynArray, dyn_max_capacity, double_until, doublings, insert}
use lib_msvl.DynArray.Shift.{shift_insert, clear}

module _ (al : Allocator) where
  -- the buffer of a new array; without one the struct is freed and NULL returned
  unfoldable pub create_buffer : ℕ → ℕ → Bool → Option DynArray
  create_buffer actual_capacity data_type_size destruct_func =
      elim (al.malloc (mul64 actual_capacity data_type_size)) [
        | none ↦ none
        | some buffer ↦ some (record {
          capacity = actual_capacity;
          size = 0;
          data_type_size = data_type_size;
          array = buffer;
          destructor = destruct_func;
        })
      ]

  -- Past the limit the struct is freed and then written: a use after free.
  unfoldable pub create : ℕ → ℕ → Bool → Run (Option DynArray)
  create capacity data_type_size destruct_func =
      if not (data_type_size == 0) && leb capacity dyn_max_capacity
      then (if al.malloc_struct
          then (do
            actual_capacity ← double_until doublings 16 capacity
            if ltb dyn_max_capacity actual_capacity
                then fault
                else ok (create_buffer actual_capacity data_type_size destruct_func))
          else ok none)
      else ok none

  -- If the objects cannot be inserted the new array, still empty, is destroyed.
  unfoldable pub fill : Bytes → ℕ → Option DynArray → Run (Option DynArray)
  fill source count none = ok none
  fill source count (some a) = do
    (done, p) ← shift_insert al (some a) 0 count insert (some source)
    if done then ok p else ok none

  -- dyn_array_import; NULL and a count of 0 are refused.
  unfoldable pub create_from : Option Bytes → ℕ → ℕ → Bool → Run (Option DynArray)
  create_from none count data_type_size destruct_func = ok none
  create_from (some source) count data_type_size destruct_func =
      if ltb 0 count
      then (do p ← create count data_type_size destruct_func; fill source count p)
      else ok none

-- The objects that the destructor is called on; buffer and struct are freed.
unfoldable pub destroy : Option DynArray → Run (List Bytes)
destroy none = ok []
destroy (some a) = do r ← clear (some a); ok r.destructed
