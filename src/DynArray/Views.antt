-- ===== src/DynArray/Views.antt =====
-- The 'view' and 'get' functions of dyn_array.c. A pointer into the buffer is an offset.
use lib_msvl.Base.{ℕ, Bool, not, Option, none, some, ltb, ◌==◌, if◌then◌else◌}
use lib_msvl.Machine.Word.{sub64}
use lib_msvl.Machine.Memory.{Bytes}
use lib_msvl.DynArray.Layout.{DynArray, position_of}

unfoldable pub export : Option DynArray → Option Bytes
export none = none
export (some a) = some a.array

unfoldable pub front : Option DynArray → Option ℕ
front none = none
front (some a) = if not (a.size == 0) then some 0 else none

unfoldable pub back : Option DynArray → Option ℕ
back none = none
back (some a) = if not (a.size == 0) then some (position_of a (sub64 a.size 1)) else none

unfoldable pub at : Option DynArray → ℕ → Option ℕ
at none index = none
at (some a) index = if ltb index a.size then some (position_of a index) else none

unfoldable pub size : Option DynArray → ℕ
size none = 0
size (some a) = a.size

unfoldable pub empty : Option DynArray → Bool
unfolding size
empty p = size p == 0

unfoldable pub capacity : Option DynArray → ℕ
capacity none = 0
capacity (some a) = a.capacity

unfoldable pub data_type_size : Option DynArray → ℕ
data_type_size none = 0
data_type_size (some a) = a.data_type_size
