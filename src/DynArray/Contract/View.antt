-- ===== src/DynArray/Contract/View.antt =====
-- dyn_array_at, dyn_array_front, dyn_array_back, dyn_array_size and dyn_array_empty.
use lib_msvl.Base.{
  ℕ, suc, ◌≤◌, ◌<◌, ◌≡◌, refl, ap, sym, subst, ◌∙◌, Option, none, some, List, [], ◌∷◌, ◌++◌,
  append_assoc, arith, length, take, drop, length-append, get_elem?, get_elem?-split, lt→ltb,
  le→ltb, ne→==, false, ◌==◌, ok,
}
use lib_msvl.Machine.Word.{sub64}
use lib_msvl.Machine.Memory.{Bytes, read_bytes, read_bytes-append}
use lib_msvl.DynArray.Layout.{DynArray, position_of}
use lib_msvl.DynArray.Holds.{
  Holds, concat, concat-append, length-concat, Sized-left, Sized-right, position_of-eq, capacity-le,
}
use lib_msvl.DynArray.Views.{at, front, back}

-- A pointer to the object `x` inside the buffer.
abbrev pub PointsTo : DynArray → Bytes → Option ℕ → Type 0
PointsTo a x p = (i : ℕ) × (p ≡ some i) × (read_bytes i a.data_type_size a.array ≡ ok x)

-- The bytes at the position of an object are that object.
pub read-object :
    {a : DynArray} (us : List Bytes) (x : Bytes) (vs : List Bytes)
    → Holds a (us ++ (x ∷ vs))
    → read_bytes (position_of a (length us)) a.data_type_size a.array ≡ ok x
read-object {a} us x vs h =
    ap (read_bytes _ _) buffer
    ∙ read_bytes-append (concat us) x (concat vs ++ h.slack) _ _
        (position_of-eq h (length us) (omega (arith, h.fits, length-append us (x ∷ vs)))
          ∙ sym
              (length-concat a.data_type_size us (Sized-left a.data_type_size us (x ∷ vs) h.sized)))
        (sym (Sized-right a.data_type_size us (x ∷ vs) h.sized).0)
  where
    buffer : a.array ≡ concat us ++ (x ++ (concat vs ++ h.slack))
    buffer = h.layout ∙ simp (concat-append, append_assoc)

module _ {a : DynArray} {xs : List Bytes} (h : Holds a xs) where
  pub read-get_elem? :
      (index : ℕ) (x : Bytes)
      → get_elem? xs index ≡ some x
      → read_bytes (position_of a index) a.data_type_size a.array ≡ ok x
  read-get_elem? index x e =
      let (whole, len) = get_elem?-split xs index x e in
      ap (λ k. read_bytes (position_of a k) a.data_type_size a.array) (sym len)
      ∙ read-object (take index xs) x (drop (suc index) xs) (subst (λ t. Holds a t) whole h)

  pub below_size : (index : ℕ) (x : Bytes) → get_elem? xs index ≡ some x → index < a.size
  below_size index x e =
      let (whole, len) = get_elem?-split xs index x e in
      omega (
        arith,
        h.count,
        len,
        ap length whole,
        length-append (take index xs) (x ∷ drop (suc index) xs),
      )

  -- dyn_array_at at an index below the size points to the object of that index.
  at-object :
      (index : ℕ) (x : Bytes) → get_elem? xs index ≡ some x → PointsTo a x (at (some a) index)
  unfolding at
  at-object index x e = (
    position_of a index,
    rw (lt→ltb index a.size (below_size index x e)),
    read-get_elem? index x e,
  )

  -- dyn_array_at from the size on, and of a NULL array, is NULL.
  at-none : (index : ℕ) → length xs ≤ index → (at (some a) index ≡ none) × (at none index ≡ none)
  unfolding at
  at-none index le = (rw (le→ltb index a.size (omega (arith, h.count, le))), refl)

  -- dyn_array_front points to the first object and dyn_array_back to the last.
  ends-object :
      (x : Bytes) (ys : List Bytes) (zs : List Bytes) (z : Bytes)
      → xs ≡ x ∷ ys
      → xs ≡ zs ++ (z ∷ [])
      → PointsTo a x (front (some a)) × PointsTo a z (back (some a))
  unfolding front back
  ends-object x ys zs z ef eb =
      ((0, rw nonempty, first), (position_of a (sub64 a.size 1), rw nonempty, last))
    where
      nonempty : (a.size == 0) ≡ false
      nonempty = ne→== a.size 0 (λ e. omega (arith, h.count, ap length ef, e))

      first : read_bytes 0 a.data_type_size a.array ≡ ok x
      first =
          ap (λ k. read_bytes k a.data_type_size a.array)
            (sym (position_of-eq h 0 (omega arith) ∙ omega arith))
          ∙ read-object [] x ys (subst (λ t. Holds a t) ef h)

      last : read_bytes (position_of a (sub64 a.size 1)) a.data_type_size a.array ≡ ok z
      last =
          ap (λ k. read_bytes (position_of a k) a.data_type_size a.array)
            (omega (arith, h.count, h.fits, capacity-le h, ap length eb, length-append zs (z ∷ [])))
          ∙ read-object zs z [] (subst (λ t. Holds a t) eb h)

  -- dyn_array_at at an index below the size points to the object of that index, dyn_array_front to
  -- the first object and dyn_array_back to the last.
  pub views-object :
      (index : ℕ) (x y z : Bytes) (ys zs : List Bytes)
      → get_elem? xs index ≡ some x
      → xs ≡ y ∷ ys
      → xs ≡ zs ++ (z ∷ [])
      → PointsTo a x (at (some a) index)
        × PointsTo a y (front (some a))
        × PointsTo a z (back (some a))
  views-object index x y z ys zs ex ef eb =
      let (first, last) = ends-object y ys zs z ef eb in (at-object index x ex, first, last)
