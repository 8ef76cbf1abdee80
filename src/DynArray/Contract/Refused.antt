-- ===== src/DynArray/Contract/Refused.antt =====
-- The indices that dyn_array.c refuses.
use lib_msvl.Base.{
  ℕ, ◌+◌, ◌<◌, ◌≡◌, Bool, false, Option, none, some, List, arith, length, ok, fault,
}
use lib_msvl.Machine.Word.{word}
use lib_msvl.Machine.Memory.{Bytes}
use lib_msvl.Machine.Allocator.{Allocator}
use lib_msvl.DynArray.Layout.{DynArray}
use lib_msvl.DynArray.Holds.{Holds}
use lib_msvl.DynArray.Shift.{refused, push_front, push_back, insert_at, erase_at, extract_at}
use lib_msvl.DynArray.Contract.Insert.{insert_at-refused}
use lib_msvl.DynArray.Contract.Remove.{remove-past_end}

-- An index past the size, whose successor is a size_t, is refused by dyn_array_insert,
-- dyn_array_erase and dyn_array_extract, and nothing changes. dyn_array_insert refuses a NULL
-- object and a NULL array too, and so does dyn_array_push_front; dyn_array_push_back of a NULL
-- array is undefined behaviour.
pub past_end-refused :
    (al : Allocator) {a : DynArray} {xs : List Bytes}
    → Holds a xs
    → (index : ℕ) (object : Option Bytes) (dst : Bool) → length xs < index
    → index + 1 < word
    → (insert_at al (some a) index object ≡ ok (false, some a))
      × (insert_at al (some a) index none ≡ ok (false, some a))
      × (insert_at al none index object ≡ ok (false, none))
      × (push_front al none object ≡ ok (false, none))
      × (push_back al none object ≡ fault)
      × (erase_at (some a) index ≡ ok (refused (some a)))
      × (extract_at (some a) index dst ≡ ok (refused (some a)))
past_end-refused al {a} {xs} h index object dst past fits =
    let (i0, i1, i2, i3, i4) = insert_at-refused al h index object past in
    let (r0, r1) = remove-past_end h index (omega arith) fits dst in (i0, i1, i2, i3, i4, r0, r1)
