-- ===== src/DynArray/Contract/Insert.antt =====
-- dyn_array_insert, dyn_array_push_front and dyn_array_push_back.
use lib_msvl.Base.{
  ℕ, ◌≤◌, ◌<◌, ◌≡◌, refl, subst, sym, false, Option, none, some, List, [], ◌∷◌, ◌++◌, arith,
  append-nil, length, take, drop, length-take, take-append-drop, lt→leb, ok, fault,
}
use lib_msvl.Machine.Memory.{Bytes}
use lib_msvl.Machine.Allocator.{Allocator, IsAllocator}
use lib_msvl.DynArray.Layout.{DynArray, insert}
use lib_msvl.DynArray.Holds.{Holds}
use lib_msvl.DynArray.Insertion.{Inserted, shift_insert-Inserted}
use lib_msvl.DynArray.Shift.{shift_insert, shift_insert_at, push_front, push_back, insert_at}

-- A lawful allocator and the object that the caller points to, with what follows it in memory.
module _ {al : Allocator} (lawful : IsAllocator al) {a : DynArray} {xs : List Bytes}
    (h : Holds a xs) (object more : Bytes) (sized : length object ≡ a.data_type_size) where
  pub split_insert :
      (us vs : List Bytes)
      → xs ≡ us ++ vs
      → (i : ℕ) → i ≡ length us
      → Inserted al a 1
          (us ++ (object ∷ vs))
          (shift_insert al (some a) i 1 insert (some (object ++ more)))
  split_insert us vs e i ei = rw ei (
      rw (append-nil) at (
        shift_insert-Inserted lawful us (object ∷ []) vs (subst (λ t. Holds a t) e h) (sized, tt)
          more (omega arith) (omega arith)))

  -- dyn_array_insert at an index up to the size copies the object there: the objects before it stay
  -- and those from the index on move up by one. If it returns false the array is as it was, and
  -- the new size is past DYN_MAX_CAPACITY or realloc has failed.
  pub insert_at-Inserted :
      (index : ℕ)
      → index ≤ length xs
      → Inserted al a 1
          (take index xs ++ (object ∷ drop index xs))
          (insert_at al (some a) index (some (object ++ more)))
  unfolding insert_at
  insert_at-Inserted index le =
      split_insert (take index xs) (drop index xs) (sym (take-append-drop index xs)) index
        (omega (arith, length-take index xs))

  -- dyn_array_push_front puts the object before all others, dyn_array_push_back behind them. Either
  -- may instead return false and leave the array as it was, when the new size is past
  -- DYN_MAX_CAPACITY or realloc has failed.
  pub push-Inserted :
      Inserted al a 1 (object ∷ xs) (push_front al (some a) (some (object ++ more)))
      × Inserted al a 1 (xs ++ (object ∷ [])) (push_back al (some a) (some (object ++ more)))
  unfolding push_front push_back
  push-Inserted =
      (split_insert [] xs refl 0 refl, split_insert xs [] (sym (append-nil xs)) a.size h.count)

-- The other branches of dyn_array_insert: an index past the size, a NULL object and a NULL array
-- are refused and nothing changes. dyn_array_push_back of a NULL array is undefined behaviour,
-- while dyn_array_push_front refuses it.
pub insert_at-refused :
    (al : Allocator) {a : DynArray} {xs : List Bytes}
    → Holds a xs
    → (index : ℕ) (object : Option Bytes) → length xs < index
    → (insert_at al (some a) index object ≡ ok (false, some a))
      × (insert_at al (some a) index none ≡ ok (false, some a))
      × (insert_at al none index object ≡ ok (false, none))
      × (push_front al none object ≡ ok (false, none))
      × (push_back al none object ≡ fault)
unfolding insert_at push_front push_back shift_insert shift_insert_at
insert_at-refused al {a} {xs} h index object lt = (past object, refl, refl, refl, refl)
  where
    past : (o : Option Bytes) → insert_at al (some a) index o ≡ ok (false, some a)
    past none = refl
    past (some b) = rw (lt→leb index a.size (omega (arith, h.count, lt)))
