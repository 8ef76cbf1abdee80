-- ===== src/DynArray/Shift.antt =====
-- The core of every insertion and removal: dyn_request_size_increase, dyn_shift_insert and
-- dyn_shift_remove of dyn_array.c, and the one-line functions that call them.
use lib_msvl.Base.{
  ℕ, zero, suc, ◌+◌, Bool, true, false, not, ◌&&◌, Option, none, some, List, [], ◌∷◌, bit_and, ltb,
  leb, ◌==◌, if◌then◌else◌, Run, ok, ◌>>=◌, deref,
}
use lib_msvl.Machine.Word.{add64, sub64, mul64, shl1}
use lib_msvl.Machine.Memory.{Bytes, read_bytes, memcpy, memmove}
use lib_msvl.Machine.Allocator.{Allocator}
use lib_msvl.DynArray.Layout.{
  DynArray, dyn_max_capacity, position_of, size_n_elems, double_until, doublings, ShiftMode, insert,
  extract, erase, mode_code, type_remove,
}

-- the writes of dyn_shift_insert, once there is room
unfoldable pub write_objects : DynArray → ℕ → ℕ → Bytes → Run DynArray
write_objects a position count data_src = do
  shifted ←
      (if position == a.size
        then ok a.array
        else memmove (position_of a (add64 position count)) (position_of a position)
            (size_n_elems a (sub64 a.size position)) a.array)
  new ← read_bytes 0 (size_n_elems a count) data_src
  written ← memcpy (position_of a position) new shifted
  ok (record a { array = written; size = add64 a.size count })

module _ (al : Allocator) where
  -- the branch of dyn_request_size_increase that reallocates
  unfoldable pub reallocate : DynArray → ℕ → Run (Bool × DynArray)
  reallocate a needed_size = do
    new_capacity ← double_until doublings (shl1 a.capacity) needed_size
    elim (al.realloc a.array (mul64 new_capacity a.data_type_size)) [
      | none ↦ ok (false, a)
      | some new_array ↦ ok (true, record a { capacity = new_capacity; array = new_array })
    ]

  unfoldable pub request_size_increase : DynArray → ℕ → Run (Bool × DynArray)
  request_size_increase a increment =
      if leb (add64 a.size increment) a.capacity
      then ok (true, a)
      else if leb (add64 a.size increment) dyn_max_capacity
      then reallocate a (add64 a.size increment)
      else ok (false, a)

  unfoldable pub shift_insert_at : DynArray → ℕ → ℕ → Bytes → Run (Bool × DynArray)
  shift_insert_at a position count data_src =
      if leb position a.size
      then (do
        (grown, a') ← request_size_increase a count
        if grown
            then (do a'' ← write_objects a' position count data_src; ok (true, a''))
            else ok (false, a'))
      else ok (false, a)

  -- A NULL `data_src` is `none`; a NULL array cannot be inserted into.
  unfoldable pub shift_insert :
      Option DynArray → ℕ → ℕ → ShiftMode → Option Bytes → Run (Bool × Option DynArray)
  shift_insert none position count mode data_src = ok (false, none)
  shift_insert (some a) position count mode none = ok (false, some a)
  shift_insert (some a) position count mode (some data_src) =
      if not (count == 0) && mode_code mode == mode_code insert
      then (do (done, a') ← shift_insert_at a position count data_src; ok (done, some a'))
      else ok (false, some a)

  -- the family of 'insert' functions
  unfoldable pub push_front : Option DynArray → Option Bytes → Run (Bool × Option DynArray)
  push_front p object = shift_insert p 0 1 insert object

  unfoldable pub push_back : Option DynArray → Option Bytes → Run (Bool × Option DynArray)
  push_back p object = do a ← deref p; shift_insert p a.size 1 insert object

  unfoldable pub insert_at : Option DynArray → ℕ → Option Bytes → Run (Bool × Option DynArray)
  insert_at p index object = shift_insert p index 1 insert object

-- What a removal does: its result, the array, the objects given to the destructor, and the bytes
-- written through `data_dst`.
pub record Removal : Type 0 where
  pub done : Bool
  pub arr : Option DynArray
  pub destructed : List Bytes
  pub extracted : Option Bytes

abbrev pub refused : Option DynArray → Removal
refused p = record { done = false; arr = p; destructed = []; extracted = none }

-- `for (total = count; total; total--, destruct_pos += data_type_size) destructor(destruct_pos);`
unfoldable pub destruct_objects : ℕ → ℕ → DynArray → Run (List Bytes)
destruct_objects zero destruct_pos a = ok []
destruct_objects (suc total) destruct_pos a = do
  object ← read_bytes destruct_pos a.data_type_size a.array
  rest ← destruct_objects total (destruct_pos + a.data_type_size) a
  ok (object ∷ rest)

-- the objects behind the gap move down, and the size falls
unfoldable pub close_gap : DynArray → ℕ → ℕ → Run DynArray
close_gap a position count = do
  moved ←
      (if ltb (add64 position count) a.size
        then memmove (position_of a position) (position_of a (add64 position count))
            (size_n_elems a (sub64 a.size (add64 position count))) a.array
        else ok a.array)
  ok (record a { array = moved; size = sub64 a.size count })

unfoldable pub erase_objects : DynArray → ℕ → ℕ → Run Removal
erase_objects a position count = do
  gone ← (if a.destructor then destruct_objects count (position_of a position) a else ok [])
  a' ← close_gap a position count
  ok (record { done = true; arr = some a'; destructed = gone; extracted = none })

-- MODE_EXTRACT returns from inside its branch, before the objects are moved and the size falls.
unfoldable pub extract_objects : DynArray → ℕ → ℕ → Bool → Run Removal
extract_objects a position count false = ok (refused (some a))
extract_objects a position count true = do
  out ← read_bytes (position_of a position) (mul64 a.data_type_size count) a.array
  ok (record { done = true; arr = some a; destructed = []; extracted = some out })

-- `data_dst` says whether the pointer is set.
unfoldable pub shift_remove : Option DynArray → ℕ → ℕ → ShiftMode → Bool → Run Removal
shift_remove none position count mode data_dst = ok (refused none)
shift_remove (some a) position count mode data_dst =
    if not (count == 0)
      && (not (a.size == 0)
          && (not (bit_and (mode_code mode) type_remove == 0) && leb (add64 position count) a.size))
    then (if mode_code mode == mode_code erase
        then erase_objects a position count
        else extract_objects a position count data_dst)
    else ok (refused (some a))

-- the family of 'remove' functions
unfoldable pub pop_front : Option DynArray → Run Removal
pop_front p = shift_remove p 0 1 erase false

unfoldable pub pop_back : Option DynArray → Run Removal
pop_back p = do a ← deref p; shift_remove p (sub64 a.size 1) 1 erase false

unfoldable pub erase_at : Option DynArray → ℕ → Run Removal
erase_at p index = shift_remove p index 1 erase false

unfoldable pub clear : Option DynArray → Run Removal
clear none = ok (refused none)
clear (some a) =
    if not (a.size == 0) then shift_remove (some a) 0 a.size erase false else ok (refused (some a))

unfoldable pub extract_front : Option DynArray → Bool → Run Removal
extract_front p object = shift_remove p 0 1 extract object

unfoldable pub extract_back : Option DynArray → Bool → Run Removal
extract_back p object = do a ← deref p; shift_remove p (sub64 a.size 1) 1 extract object

unfoldable pub extract_at : Option DynArray → ℕ → Bool → Run Removal
extract_at p index object = shift_remove p index 1 extract object
