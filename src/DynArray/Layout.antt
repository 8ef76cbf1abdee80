-- ===== src/DynArray/Layout.antt =====
-- The struct of dyn_array.h, its limit and its address arithmetic.
use lib_msvl.Base.{ℕ, zero, suc, ◌^◌, Bool, ltb, if◌then◌else◌, Run, ok, out_of_fuel}
use lib_msvl.Machine.Word.{mul64, shl1}
use lib_msvl.Machine.Memory.{Bytes}

-- `destructor` says whether the function pointer is set; what it is called on is logged.
pub record DynArray : Type 0 where
  pub capacity : ℕ
  pub size : ℕ
  pub data_type_size : ℕ
  pub array : Bytes
  pub destructor : Bool

-- DYN_MAX_CAPACITY, with a size_t of 8 bytes
abbrev pub dyn_max_capacity : ℕ
dyn_max_capacity = 2 ^ 56

-- DYN_ARRAY_POSITION, as an offset into the buffer
abbrev pub position_of : DynArray → ℕ → ℕ
position_of a idx = mul64 idx a.data_type_size

-- DYN_SIZE_N_ELEMS
abbrev pub size_n_elems : DynArray → ℕ → ℕ
size_n_elems a n = mul64 a.data_type_size n

-- `while (c < wanted) c <<= 1;`
unfoldable pub double_until : ℕ → ℕ → ℕ → Run ℕ
double_until zero c wanted = out_of_fuel
double_until (suc fuel) c wanted =
    let rest = double_until fuel (shl1 c) wanted in if ltb c wanted then rest else ok c

-- A word has 64 bits, so after 64 rounds a loop of doublings runs for ever.
abbrev pub doublings : ℕ
doublings = 65

pub data ShiftMode : Type 0 where
  insert extract erase : ShiftMode

-- DYN_SHIFT_MODE
abbrev pub mode_code : ShiftMode → ℕ
mode_code insert = 0x01
mode_code extract = 0x02
mode_code erase = 0x06

abbrev pub type_remove : ℕ
type_remove = 0x02
