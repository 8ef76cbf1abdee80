-- ===== src/DynArray/Contract/Order.antt =====
-- dyn_array_insert_sorted against insertion into a sorted list.
use lib_msvl.Base.{
  ℕ, suc, ◌+◌, ◌≡◌, refl, ap, sym, subst, ◌∙◌, inl, inr, true, false, some, List, [], ◌∷◌, ◌++◌,
  append_assoc, append-nil, arith, length, length-append, is_negative, Bool-cases, if◌then◌else◌,
  ok,
}
use lib_msvl.Machine.Memory.{Bytes}
use lib_msvl.Machine.Allocator.{Allocator, IsAllocator}
use lib_msvl.DynArray.Layout.{DynArray, insert}
use lib_msvl.DynArray.Holds.{Holds}
use lib_msvl.DynArray.Insertion.{Inserted}
use lib_msvl.DynArray.Contract.Insert.{split_insert}
use lib_msvl.DynArray.Contract.View.{read-object}
use lib_msvl.DynArray.Shift.{shift_insert}
use lib_msvl.DynArray.Ordered.{Compare, sorted_position, insert_sorted}

-- Before the first object that is not less than the new one.
pub insert_in_order : Compare → Bytes → List Bytes → List Bytes
insert_in_order compare object [] = object ∷ []
insert_in_order compare object (x ∷ xs) =
    if is_negative (compare x object)
    then x ∷ insert_in_order compare object xs
    else object ∷ (x ∷ xs)

-- No object is less than the one before it.
abbrev pub IsSorted : Compare → List Bytes → Type 0
IsSorted compare [] = Unit
IsSorted compare (x ∷ []) = Unit
IsSorted compare (x ∷ y ∷ xs) = (is_negative (compare y x) ≡ false) × IsSorted compare (y ∷ xs)

module _ (compare : Compare) (object : Bytes) where
  -- how many objects the loop passes
  lesser : List Bytes → ℕ
  lesser [] = 0
  lesser (x ∷ xs) = if is_negative (compare x object) then suc (lesser xs) else 0

  sorted_position_lem :
      {a : DynArray} (us vs : List Bytes)
      → Holds a (us ++ vs)
      → sorted_position compare a object (length vs) (length us) ≡ ok (length us + lesser vs)
  unfolding sorted_position lesser
  sorted_position_lem us [] h = ap ok (omega arith)
  sorted_position_lem {a} us (x ∷ vs) h =
      rw (read-object us x vs h) (elim (Bool-cases (is_negative (compare x object))) [
        | inl less ↦ rw less (
            ap (λ k. sorted_position compare a object (length vs) k) (sym (omega (arith, grown)))
            ∙ sorted_position_lem (us ++ (x ∷ [])) vs
                (subst (λ t. Holds a t) (sym (append_assoc us (x ∷ []) vs)) h)
            ∙ ap ok (omega (arith, grown)))
        | inr not_less ↦ rw not_less (ap ok (omega arith))
      ])
    where
      grown : length (us ++ (x ∷ [])) ≡ length us + 1
      grown = length-append us (x ∷ [])

  -- the split that the position makes
  insert_in_order-split :
      (xs : List Bytes)
      → (us : List Bytes) × (vs : List Bytes) × (xs ≡ us ++ vs)
        × (lesser xs ≡ length us)
        × (insert_in_order compare object xs ≡ us ++ (object ∷ vs))
  unfolding lesser insert_in_order
  insert_in_order-split [] = ([], [], refl, refl, refl)
  insert_in_order-split (x ∷ xs) = elim (Bool-cases (is_negative (compare x object))) [
    | inl less ↦
        let (us, vs, whole, count, around) = insert_in_order-split xs in
        (
          x ∷ us,
          vs,
          ap (λ t. x ∷ t) whole,
          rw less (ap suc count),
          rw less (ap (λ t. x ∷ t) around),
        )
    | inr not_less ↦ ([], x ∷ xs, refl, rw not_less, rw not_less)
  ]

  insert_in_order-IsSorted :
      ((x y : Bytes) → is_negative (compare x y) ≡ true → is_negative (compare y x) ≡ false)
      → (xs : List Bytes) → IsSorted compare xs
      → IsSorted compare (insert_in_order compare object xs)
  unfolding insert_in_order
  insert_in_order-IsSorted asym [] s = tt
  insert_in_order-IsSorted asym (x ∷ []) s = elim (Bool-cases (is_negative (compare x object))) [
    | inl less ↦ rw less (asym x object less, tt)
    | inr not_less ↦ rw not_less (not_less, tt)
  ]
  insert_in_order-IsSorted asym (x ∷ y ∷ xs) s =
      elim (Bool-cases (is_negative (compare x object))) [
        | inr not_less ↦ rw not_less (not_less, s)
        | inl less ↦
            let ih = insert_in_order-IsSorted asym (y ∷ xs) s.1 in
            elim (Bool-cases (is_negative (compare y object))) [
              | inl next ↦ rw (less, next) (s.0, rw next at ih)
              | inr last ↦ rw (less, last) (asym x object less, (last, s.1))
            ]
      ]

-- dyn_array_insert_sorted with a comparison that is never negative both ways, on a sorted array:
-- the array then holds the objects with the new one before the first that is not less, and is
-- sorted; or it is as it was, after a failed or refused growth.
pub insert_sorted-IsSorted :
    (al : Allocator) (compare : Compare) {a : DynArray} {xs : List Bytes} (object : Bytes)
    → IsAllocator al
    → ((x y : Bytes) → is_negative (compare x y) ≡ true → is_negative (compare y x) ≡ false)
    → Holds a xs
    → length object ≡ a.data_type_size
    → IsSorted compare xs
    → Inserted al a 1
        (insert_in_order compare object xs)
        (insert_sorted al (some a) (some object) (some compare))
      × IsSorted compare (insert_in_order compare object xs)
unfolding insert_sorted
insert_sorted-IsSorted al compare {a} {xs} object lawful asym h sized s =
    let (us, vs, whole, count, around) = insert_in_order-split compare object xs in
    (
      rw (place, around)
          (subst
            (λ t.
              Inserted al a 1 (us ++ (object ∷ vs))
                (shift_insert al (some a) (0 + lesser compare object xs) 1 insert (some t)))
            (append-nil object)
            (split_insert lawful h object [] sized us vs whole (0 + lesser compare object xs)
              (omega (arith, count)))),
      insert_in_order-IsSorted compare object asym xs s,
    )
  where
    place : sorted_position compare a object a.size 0 ≡ ok (0 + lesser compare object xs)
    place =
        ap (λ k. sorted_position compare a object k 0) h.count
        ∙ sorted_position_lem compare object [] xs h
