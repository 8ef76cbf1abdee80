-- ===== src/DynArray/Contract/Remove.antt =====
-- dyn_array_erase, dyn_array_pop_front, dyn_array_pop_back, dyn_array_clear and the extract family.
use lib_msvl.Base.{
  ℕ, suc, ◌+◌, ◌-◌, ◌*◌, ◌^◌, ◌≤◌, ◌<◌, ◌≡◌, ◌≢◌, ◌⊎◌, refl, ap, subst, sym, ◌∙◌, Bool, true, false,
  none, some, List, [], ◌∷◌, ◌++◌, arith, append-nil, length, take, drop, length-append, get_elem?,
  get_elem?-split, leb, le→leb, lt→leb, lt→ltb, eq→==, ◌==◌, ne→==, if◌then◌else◌, Run, ok, fault,
  inl, inr,
}
use lib_msvl.Machine.Word.{word, add64, sub64, mul64}
use lib_msvl.Machine.Memory.{Bytes, read_bytes-fault, memmove-fault}
use lib_msvl.DynArray.Layout.{DynArray, erase, extract, position_of, size_n_elems}
use lib_msvl.DynArray.Holds.{Holds, capacity-le, length-array, concat}
use lib_msvl.DynArray.Growth.{SameKind}
use lib_msvl.DynArray.Removing.{shift_remove-erase, shift_remove-extract}
use lib_msvl.DynArray.Shift.{
  Removal, refused, shift_remove, pop_front, pop_back, erase_at, clear, extract_front, extract_back,
  extract_at, erase_objects, close_gap, destruct_objects,
}

-- A removal of `gone` that leaves `left`: the destructor, if there is one, has been called on
-- exactly the objects of `gone`, in their order.
abbrev pub Erased : DynArray → List Bytes → List Bytes → Run Removal → Type 0
Erased a gone left r =
    (a' : DynArray) × (r
      ≡ ok (record {
        done = true;
        arr = some a';
        destructed = if a.destructor then gone else [];
        extracted = none;
      }))
    × Holds a' left
    × SameKind a a'

-- A copy of `out` through the caller's pointer, with the array as it was.
abbrev pub copied : DynArray → Bytes → Removal
copied a out = record { done = true; arr = some a; destructed = []; extracted = some out }

module _ {a : DynArray} {xs : List Bytes} (h : Holds a xs) where
  split_remove :
      (us ws vs : List Bytes)
      → xs ≡ us ++ (ws ++ vs)
      → (i n : ℕ) → i ≡ length us
      → n ≡ length ws
      → 0 < n
      → Erased a ws (us ++ vs) (shift_remove (some a) i n erase false)
  split_remove us ws vs e i n ei en pos =
      rw (ei, en)
        (shift_remove-erase us ws vs (subst (λ t. Holds a t) e h) false (omega (arith, en, pos)))

  split_extract :
      (us ws vs : List Bytes)
      → xs ≡ us ++ (ws ++ vs)
      → (i n : ℕ) → i ≡ length us
      → n ≡ length ws
      → 0 < n
      → shift_remove (some a) i n extract true ≡ ok (copied a (concat ws))
  split_extract us ws vs e i n ei en pos =
      rw (ei, en)
        (shift_remove-extract us ws vs (subst (λ t. Holds a t) e h) (omega (arith, en, pos)))

  -- dyn_array_erase at an index below the size takes exactly that object out, in order, and calls
  -- the destructor on it.
  pub erase_at-Erased :
      (index : ℕ) (x : Bytes)
      → get_elem? xs index ≡ some x
      → Erased a (x ∷ []) (take index xs ++ drop (suc index) xs) (erase_at (some a) index)
  unfolding erase_at
  erase_at-Erased index x e =
      let (whole, len) = get_elem?-split xs index x e in
      split_remove (take index xs) (x ∷ []) (drop (suc index) xs) whole index 1 (sym len) refl
        (omega arith)

  -- dyn_array_clear removes every object, the destructor having been called on each from first to
  -- last, and leaves a valid empty array.
  pub clear-Erased : xs ≢ [] → Erased a xs [] (clear (some a))
  unfolding clear
  clear-Erased ne =
      rw (ne→== a.size 0 (λ e. ne (nil xs (omega (arith, h.count, e)))))
        (split_remove [] xs [] (sym (append-nil xs)) 0 a.size refl h.count (some_object xs ne))
    where
      nil : (ys : List Bytes) → length ys ≡ 0 → ys ≡ []
      nil [] k = refl
      nil (y ∷ ys) k = absurd (omega arith)

      positive : (ys : List Bytes) → ys ≢ [] → 0 < length ys
      positive [] k = absurd (k refl)
      positive (y ∷ ys) k = omega arith

      some_object : (ys : List Bytes) → ys ≢ [] → 0 < a.size
      some_object ys k = omega (arith, positive xs ne, h.count)

-- The first and the last object of an array that is not empty.
module _ {a : DynArray} {xs : List Bytes} (h : Holds a xs) (x : Bytes) (ys : List Bytes)
    (from_front : xs ≡ x ∷ ys) (zs : List Bytes) (z : Bytes) (from_back : xs ≡ zs ++ (z ∷ [])) where
  last_index : sub64 a.size 1 ≡ length zs
  last_index =
      omega (arith, h.count, h.fits, capacity-le h, ap length from_back, length-append zs (z ∷ []))

  -- dyn_array_pop_front removes the first object and dyn_array_pop_back the last; the others stay
  -- in order, and the destructor is called on the one that goes.
  pub pop-Erased :
      Erased a (x ∷ []) ys (pop_front (some a)) × Erased a (z ∷ []) zs (pop_back (some a))
  unfolding pop_front pop_back
  pop-Erased = (
    split_remove h [] (x ∷ []) ys from_front 0 1 refl refl (omega arith),
    subst (λ t. Erased a (z ∷ []) t (pop_back (some a))) (append-nil zs)
        (split_remove h zs (z ∷ []) [] from_back (sub64 a.size 1) 1 last_index refl (omega arith)),
  )

  -- The extract family returns true and copies the object that is asked for, at an index below the
  -- size, at the front and at the back; but the array keeps it: it is as it was, objects and size.
  pub extract-copied :
      (index : ℕ) (w : Bytes)
      → get_elem? xs index ≡ some w
      → (extract_at (some a) index true ≡ ok (copied a w))
        × (extract_front (some a) true ≡ ok (copied a x))
        × (extract_back (some a) true ≡ ok (copied a z))
  unfolding extract_at extract_front extract_back
  extract-copied index w e =
      let (whole, len) = get_elem?-split xs index w e in
      (
        split_extract h (take index xs) (w ∷ []) (drop (suc index) xs) whole index 1 (sym len) refl
              (omega arith)
            ∙ alone w,
        split_extract h [] (x ∷ []) ys from_front 0 1 refl refl (omega arith) ∙ alone x,
        split_extract h zs (z ∷ []) [] from_back (sub64 a.size 1) 1 last_index refl (omega arith)
            ∙ alone z,
      )
    where
      alone : (o : Bytes) → ok (copied a (o ++ [])) ≡ ok (copied a o)
      alone o = ap (λ t. ok (copied a t)) (append-nil o)

-- dyn_array_erase and dyn_array_extract refuse an index from the size on whose successor is a
-- size_t, and change nothing.
pub remove-past_end :
    {a : DynArray} {xs : List Bytes}
    → Holds a xs
    → (index : ℕ) → length xs ≤ index
    → index + 1 < word
    → (dst : Bool)
    → (erase_at (some a) index ≡ ok (refused (some a)))
      × (extract_at (some a) index dst ≡ ok (refused (some a)))
unfolding erase_at extract_at shift_remove
remove-past_end {a} h index past fits dst = rw outside (ground arith, ground arith)
  where
    outside : leb (add64 index 1) a.size ≡ false
    outside = lt→leb (add64 index 1) a.size (omega (arith, h.count))

pub clear-empty : {a : DynArray} → Holds a [] → clear (some a) ≡ ok (refused (some a))
unfolding clear
clear-empty {a} h = rw (eq→== a.size 0 h.count)

-- On an array with no object every remove function changes nothing and returns false; a NULL array
-- is refused too, except by dyn_array_pop_back and dyn_array_extract_back, which dereference it.
pub remove-empty :
    {a : DynArray}
    → Holds a []
    → (index : ℕ) (dst : Bool)
    → (erase_at (some a) index ≡ ok (refused (some a)))
      × (pop_front (some a) ≡ ok (refused (some a)))
      × (pop_back (some a) ≡ ok (refused (some a)))
      × (clear (some a) ≡ ok (refused (some a)))
      × (extract_at (some a) index dst ≡ ok (refused (some a)))
      × (extract_back (some a) dst ≡ ok (refused (some a)))
      × (erase_at none index ≡ ok (refused none))
      × (pop_back none ≡ fault)
      × (extract_back none dst ≡ fault)
unfolding erase_at pop_front pop_back clear extract_at extract_back shift_remove
remove-empty {a} h index dst = rw nothing (refl, refl, refl, refl, refl, refl, refl, refl, refl)
  where
    nothing : (a.size == 0) ≡ true
    nothing = eq→== a.size 0 h.count

far_position :
    (a : DynArray)
    → 0 < a.data_type_size
    → a.data_type_size < 256
    → position_of a (word - 1) ≡ word - a.data_type_size
unfolding mul64
far_position a pos small = omega arith

buffer-le : (n d : ℕ) → n ≤ 2 ^ 56 → d < 256 → n * d ≤ 2 ^ 56 * 255
buffer-le n d h k = grind arith

destruct_objects-fault :
    (pos : ℕ) (a : DynArray)
    → length a.array < pos + a.data_type_size
    → destruct_objects 1 pos a ≡ fault
unfolding destruct_objects
destruct_objects-fault pos a h = rw (read_bytes-fault pos a.data_type_size a.array h)

close_gap-fault :
    (a : DynArray) (position count : ℕ)
    → add64 position count < a.size
    → length a.array < position_of a position
    → close_gap a position count ≡ fault
unfolding close_gap
close_gap-fault a position count lt far = rw (
  lt→ltb (add64 position count) a.size lt,
  memmove-fault (position_of a position) (position_of a (add64 position count))
      (size_n_elems a (sub64 a.size (add64 position count))) a.array (omega (arith, far)),
)

-- dyn_array_erase of index SIZE_MAX on an array with an object is undefined behaviour: the sum of
-- index and count wraps to 0 and passes the test against the size, and the access lies outside
-- the buffer.
pub erase_at-wraps :
    {a : DynArray} (x : Bytes) (xs : List Bytes)
    → Holds a (x ∷ xs)
    → erase_at (some a) (word - 1) ≡ fault
unfolding erase_at shift_remove erase_objects
erase_at-wraps {a} x xs h =
    rw (ne→== a.size 0 (λ e. omega (arith, h.count, e)), le→leb 0 a.size (omega arith))
      (elim (gone a.destructor) [ inl e ↦ rw e | inr e ↦ rw (e, gap) ])
  where
    far : position_of a (word - 1) ≡ word - a.data_type_size
    far = far_position a h.some_byte h.few_bytes

    small : length a.array < word - 256
    small =
        omega (
          arith,
          length-array h,
          buffer-le (a.capacity) a.data_type_size (capacity-le h) h.few_bytes,
        )

    gone :
        (b : Bool)
        → ((if b then destruct_objects 1 (position_of a (word - 1)) a else ok []) ≡ fault)
          ⊎ ((if b then destruct_objects 1 (position_of a (word - 1)) a else ok []) ≡ ok [])
    gone true =
        inl (destruct_objects-fault (position_of a (word - 1)) a (omega (arith, far, small)))
    gone false = inr refl

    gap : close_gap a (word - 1) 1 ≡ fault
    gap = close_gap-fault a (word - 1) 1 (omega (arith, h.count)) (omega (arith, far, small))
