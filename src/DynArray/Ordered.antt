-- ===== src/DynArray/Ordered.antt =====
-- dyn_array_sort, dyn_array_insert_sorted and dyn_array_for_each of dyn_array.c. The comparison and
-- the visitor belong to the caller, and qsort to the C library: they are parameters.
use lib_msvl.Base.{
  ℕ, zero, suc, ◌+◌, Bool, true, false, not, Option, none, some, ◌==◌, if◌then◌else◌, ℤ,
  is_negative, Run, ok, ◌>>=◌,
}
use lib_msvl.Machine.Memory.{Bytes, read_bytes, memcpy}
use lib_msvl.Machine.Allocator.{Allocator}
use lib_msvl.DynArray.Layout.{DynArray, position_of, insert}
use lib_msvl.DynArray.Shift.{shift_insert}

-- a comparison function, or NULL
abbrev pub Compare : Type 0
Compare = Bytes → Bytes → ℤ

-- `qsort data n width compare` is the buffer after the call.
unfoldable pub sort :
    (Bytes → ℕ → ℕ → Compare → Bytes) → Option DynArray → Option Compare → Bool × Option DynArray
sort qsort none compare = (false, none)
sort qsort (some a) none = (false, some a)
sort qsort (some a) (some compare) =
    if not (a.size == 0)
    then (true, some (record a { array = qsort a.array a.size a.data_type_size compare }))
    else (false, some a)

-- The loop of dyn_array_insert_sorted, with `rounds` objects not looked at yet.
unfoldable pub sorted_position : Compare → DynArray → Bytes → ℕ → ℕ → Run ℕ
sorted_position compare a object zero insert_position = ok insert_position
sorted_position compare a object (suc rounds) insert_position =
    let rest = sorted_position compare a object rounds (insert_position + 1) in
    do
      here ← read_bytes (position_of a insert_position) a.data_type_size a.array
      if is_negative (compare here object) then rest else ok insert_position

unfoldable pub insert_sorted :
    Allocator → Option DynArray → Option Bytes → Option Compare → Run (Bool × Option DynArray)
insert_sorted al none object compare = ok (false, none)
insert_sorted al (some a) none compare = ok (false, some a)
insert_sorted al (some a) (some object) none = ok (false, some a)
insert_sorted al (some a) (some object) (some compare) = do
  insert_position ← sorted_position compare a object a.size 0
  shift_insert al (some a) insert_position 1 insert (some object)

-- A visitor may change the object that it is given and what `arg` points to.
abbrev pub Visitor : Type 0 → Type 0
Visitor S = Bytes → S → Bytes × S

module _ {S : Type 0} where
  -- the walk over the objects, with `rounds` of them left
  unfoldable pub visit : Visitor S → ℕ → ℕ → DynArray → S → Run (DynArray × S)
  visit func zero data_walker a arg = ok (a, arg)
  visit func (suc rounds) data_walker a arg = do
    object ← read_bytes data_walker a.data_type_size a.array
    changed ← memcpy data_walker (func object arg).0 a.array
    visit func rounds (data_walker + a.data_type_size) (record a { array = changed })
        (func object arg).1

  -- The buffer of an array is never NULL.
  unfoldable pub for_each :
      Option DynArray → Option (Visitor S) → S → Run (Bool × Option DynArray × S)
  for_each none func arg = ok (false, none, arg)
  for_each (some a) none arg = ok (false, some a, arg)
  for_each (some a) (some func) arg = do
    (a', arg') ← visit func a.size 0 a arg
    ok (true, some a', arg')
