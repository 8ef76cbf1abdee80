-- ===== src/DynArray/Holds.antt =====
-- What an array of dyn_array.c stands for: the list of its objects, laid out from the start of the
-- buffer, with slack behind them.
use lib_msvl.Base.{
  ℕ, ◌+◌, ◌*◌, ◌^◌, ◌≤◌, ◌<◌, ◌≡◌, refl, ap, sym, ◌∙◌, List, [], ◌∷◌, ◌++◌, append_assoc, arith,
  length, length-append,
}
use lib_msvl.Machine.Word.{word, pow2, pow2_mono, mul64_comm, mul64-eq_of_le}
use lib_msvl.Machine.Memory.{Bytes}
use lib_msvl.DynArray.Layout.{DynArray, position_of, size_n_elems}

abbrev pub concat : List Bytes → Bytes
concat [] = []
concat (x ∷ xs) = x ++ concat xs

-- every object has `d` bytes
abbrev pub Sized : ℕ → List Bytes → Type 0
Sized d [] = Unit
Sized d (x ∷ xs) = (length x ≡ d) × Sized d xs

pub concat-append : (xs ys : List Bytes) → concat (xs ++ ys) ≡ concat xs ++ concat ys
concat-append [] ys = refl
concat-append (x ∷ xs) ys =
    ap (λ t. x ++ t) (concat-append xs ys) ∙ sym (append_assoc x (concat xs) (concat ys))

pub length-concat : (d : ℕ) (xs : List Bytes) → Sized d xs → length (concat xs) ≡ length xs * d
length-concat d [] h = omega arith
length-concat d (x ∷ xs) h = omega (arith, length-append x (concat xs), length-concat d xs h.1, h.0)

pub Sized-append : (d : ℕ) (xs ys : List Bytes) → Sized d xs → Sized d ys → Sized d (xs ++ ys)
Sized-append d [] ys h k = k
Sized-append d (x ∷ xs) ys h k = (h.0, Sized-append d xs ys h.1 k)

pub Sized-left : (d : ℕ) (xs ys : List Bytes) → Sized d (xs ++ ys) → Sized d xs
Sized-left d [] ys h = tt
Sized-left d (x ∷ xs) ys h = (h.0, Sized-left d xs ys h.1)

pub Sized-right : (d : ℕ) (xs ys : List Bytes) → Sized d (xs ++ ys) → Sized d ys
Sized-right d [] ys h = h
Sized-right d (x ∷ xs) ys h = Sized-right d xs ys h.1

-- The representation invariant. The capacity is a power of two up to DYN_MAX_CAPACITY, and objects
-- have fewer than 256 bytes, so that the size of the buffer does not wrap.
pub record Holds (a : DynArray) (xs : List Bytes) : Type 0 where
  pub slack : Bytes
  pub layout : a.array ≡ concat xs ++ slack
  pub sized : Sized a.data_type_size xs
  pub count : a.size ≡ length xs
  pub exponent : ℕ
  pub power : a.capacity ≡ pow2 exponent
  pub limit : exponent ≤ 56
  pub room : length xs * a.data_type_size + length slack ≡ a.capacity * a.data_type_size
  pub fits : length xs ≤ a.capacity
  pub some_byte : 0 < a.data_type_size
  pub few_bytes : a.data_type_size < 256

-- A capacity up to the limit times the size of an object is below 2 ^ 64.
pub buffer-lt-word : (n d : ℕ) → n ≤ 2 ^ 56 → d < 256 → n * d < word
buffer-lt-word n d h k = grind arith

module _ {a : DynArray} {xs : List Bytes} (h : Holds a xs) where
  pub capacity-le : a.capacity ≤ 2 ^ 56
  capacity-le = omega (arith, h.power, pow2_mono h.exponent 56 h.limit)

  -- Positions and sizes inside the buffer do not wrap.
  pub position_of-eq : (i : ℕ) → i ≤ a.capacity → position_of a i ≡ i * a.data_type_size
  position_of-eq i le =
      mul64-eq_of_le i a.data_type_size (2 ^ 56) (omega (arith, capacity-le))
        (buffer-lt-word (2 ^ 56) a.data_type_size (omega arith) h.few_bytes)

  pub size_n_elems-eq : (n : ℕ) → n ≤ a.capacity → size_n_elems a n ≡ n * a.data_type_size
  size_n_elems-eq n le = rw (mul64_comm a.data_type_size n) (position_of-eq n le)

  pub length-array : length a.array ≡ a.capacity * a.data_type_size
  length-array = omega (
    arith,
    ap length h.layout,
    length-append (concat xs) h.slack,
    h.room,
    length-concat a.data_type_size xs h.sized,
  )
