-- ===== src/DynArray/Examples.antt =====
-- An array of two objects of a byte each, and the theorems about
-- dyn_array.c at them; runs of its functions.
use lib_msvl.Base.{
  ℕ, ◌+◌, ◌*◌, ◌-◌, ◌≡◌, refl, true, false, Option, none, some, List, [], ◌∷◌, ◌++◌, arith, length,
  replicate, length-replicate, pos, negsuc, ltb, is_negative, if◌then◌else◌, ok, fault,
}
use lib_msvl.Machine.Word.{word, mul64}
use lib_msvl.Machine.Memory.{Bytes, read_bytes}
use lib_msvl.Machine.Sample.{plentiful, plentiful-IsAllocator}
use lib_msvl.DynArray.Layout.{DynArray, dyn_max_capacity}
use lib_msvl.DynArray.Holds.{Holds, concat}
use lib_msvl.DynArray.Insertion.{Inserted}
use lib_msvl.DynArray.Shift.{
  refused, shift_remove, extract_objects, push_front, push_back, insert_at, erase_at, pop_front,
  pop_back, clear, extract_at, extract_front, extract_back,
}
use lib_msvl.DynArray.Create.{create, create_from, destroy}
use lib_msvl.DynArray.Views.{at, front, back}
use lib_msvl.DynArray.Ordered.{Compare, Visitor, insert_sorted, for_each}
use lib_msvl.DynArray.Growth.{SameKind}
use lib_msvl.DynArray.Contract.Insert.{insert_at-Inserted, push-Inserted}
use lib_msvl.DynArray.Contract.Remove.{
  Erased, copied, erase_at-Erased, clear-Erased, pop-Erased, extract-copied, remove-empty,
  erase_at-wraps,
}
use lib_msvl.DynArray.Contract.Create.{
  Created, Imported, create-total, create-Created, create-overflow, create_from-Imported,
}
use lib_msvl.DynArray.Contract.Refused.{past_end-refused}
use lib_msvl.DynArray.Contract.View.{PointsTo, views-object}
use lib_msvl.DynArray.Contract.Destroy.{destroy_lem}
use lib_msvl.DynArray.Contract.Order.{IsSorted, insert_in_order, insert_sorted-IsSorted}
use lib_msvl.DynArray.Contract.Visit.{walk, for_each-walk}

abbrev two_objects : DynArray
two_objects = record {
  capacity = 16;
  size = 2;
  data_type_size = 1;
  array = 10 ∷ 20 ∷ replicate 14 0;
  destructor = true;
}

abbrev objects : List Bytes
objects = (10 ∷ []) ∷ (20 ∷ []) ∷ []

two_objects-Holds : Holds two_objects objects
two_objects-Holds = record {
  slack = replicate 14 0;
  layout = refl;
  sized = (refl, (refl, tt));
  count = refl;
  exponent = 4;
  power = refl;
  limit = omega arith;
  room = refl;
  fits = omega arith;
  some_byte = omega arith;
  few_bytes = omega arith;
}

abbrev no_object : DynArray
no_object = record two_objects { size = 0; array = replicate 16 0 }

no_object-Holds : Holds no_object []
no_object-Holds = record {
  slack = replicate 16 0;
  layout = refl;
  sized = tt;
  count = refl;
  exponent = 4;
  power = refl;
  limit = omega arith;
  room = refl;
  fits = omega arith;
  some_byte = omega arith;
  few_bytes = omega arith;
}

insert_at-Inserted_example :
    Inserted plentiful two_objects 1
      ((10 ∷ []) ∷ (15 ∷ []) ∷ (20 ∷ []) ∷ [])
      (insert_at plentiful (some two_objects) 1 (some ((15 ∷ []) ++ [])))
insert_at-Inserted_example =
    insert_at-Inserted plentiful-IsAllocator two_objects-Holds (15 ∷ []) [] refl 1 (omega arith)

push-Inserted_example :
    Inserted plentiful two_objects 1
      ((15 ∷ []) ∷ objects)
      (push_front plentiful (some two_objects) (some ((15 ∷ []) ++ [])))
    × Inserted plentiful two_objects 1
        (objects ++ ((15 ∷ []) ∷ []))
        (push_back plentiful (some two_objects) (some ((15 ∷ []) ++ [])))
push-Inserted_example = push-Inserted plentiful-IsAllocator two_objects-Holds (15 ∷ []) [] refl

refusals_of_two :
    (insert_at plentiful (some two_objects) 3 (some (15 ∷ [])) ≡ ok (false, some two_objects))
    × (insert_at plentiful (some two_objects) 3 none ≡ ok (false, some two_objects))
    × (insert_at plentiful none 3 (some (15 ∷ [])) ≡ ok (false, none))
    × (push_front plentiful none (some (15 ∷ [])) ≡ ok (false, none))
    × (push_back plentiful none (some (15 ∷ [])) ≡ fault)
    × (erase_at (some two_objects) 3 ≡ ok (refused (some two_objects)))
    × (extract_at (some two_objects) 3 true ≡ ok (refused (some two_objects)))
refusals_of_two =
    past_end-refused plentiful two_objects-Holds 3 (some (15 ∷ [])) true (omega arith) (omega arith)

erase_at-Erased_example :
    Erased two_objects ((10 ∷ []) ∷ []) ((20 ∷ []) ∷ []) (erase_at (some two_objects) 0)
erase_at-Erased_example = erase_at-Erased two_objects-Holds 0 (10 ∷ []) refl

clear_two : Erased two_objects objects [] (clear (some two_objects))
clear_two = clear-Erased two_objects-Holds (λ e. cc)

pop-Erased_example :
    Erased two_objects ((10 ∷ []) ∷ []) ((20 ∷ []) ∷ []) (pop_front (some two_objects))
    × Erased two_objects ((20 ∷ []) ∷ []) ((10 ∷ []) ∷ []) (pop_back (some two_objects))
pop-Erased_example =
    pop-Erased two_objects-Holds (10 ∷ []) ((20 ∷ []) ∷ []) refl ((10 ∷ []) ∷ []) (20 ∷ []) refl

extract_of_two :
    (extract_at (some two_objects) 1 true ≡ ok (copied two_objects (20 ∷ [])))
    × (extract_front (some two_objects) true ≡ ok (copied two_objects (10 ∷ [])))
    × (extract_back (some two_objects) true ≡ ok (copied two_objects (20 ∷ [])))
extract_of_two =
    extract-copied two_objects-Holds (10 ∷ []) ((20 ∷ []) ∷ []) refl ((10 ∷ []) ∷ []) (20 ∷ []) refl
      1 (20 ∷ []) refl

nothing_to_remove :
    (erase_at (some no_object) 0 ≡ ok (refused (some no_object)))
    × (pop_front (some no_object) ≡ ok (refused (some no_object)))
    × (pop_back (some no_object) ≡ ok (refused (some no_object)))
    × (clear (some no_object) ≡ ok (refused (some no_object)))
    × (extract_at (some no_object) 0 true ≡ ok (refused (some no_object)))
    × (extract_back (some no_object) true ≡ ok (refused (some no_object)))
    × (erase_at none 0 ≡ ok (refused none))
    × (pop_back none ≡ fault)
    × (extract_back none true ≡ fault)
nothing_to_remove = remove-empty no_object-Holds 0 true

erase_at-wraps_example : erase_at (some two_objects) (word - 1) ≡ fault
erase_at-wraps_example = erase_at-wraps (10 ∷ []) ((20 ∷ []) ∷ []) two_objects-Holds

create_returns : (r : Option DynArray) × (create plentiful 20 8 false ≡ ok r)
create_returns = create-total plentiful 20 8 false

create-Created_example : Created plentiful 20 8 false (create plentiful 20 8 false)
create-Created_example =
    create-Created plentiful 20 8 false plentiful-IsAllocator (omega arith) (omega arith)
      (omega arith)

create_too_large :
    (a : DynArray) × (create plentiful dyn_max_capacity (256 * 1) false ≡ ok (some a))
    × (a.capacity ≡ dyn_max_capacity)
    × (push_back plentiful (some a) (some (replicate 256 7)) ≡ fault)
create_too_large =
    create-overflow plentiful dyn_max_capacity 1 false (replicate 256 7) (omega arith) (omega arith)
      (omega arith) (omega arith) refl refl refl

create_from-Imported_example :
    Imported plentiful objects 1 true (create_from plentiful (some (concat objects ++ [])) 2 1 true)
create_from-Imported_example =
    create_from-Imported plentiful objects 1 true [] plentiful-IsAllocator (omega arith)
      (omega arith) (omega arith) (omega arith) (refl, (refl, tt))

views_of_two :
    PointsTo two_objects (20 ∷ []) (at (some two_objects) 1)
    × PointsTo two_objects (10 ∷ []) (front (some two_objects))
    × PointsTo two_objects (20 ∷ []) (back (some two_objects))
views_of_two =
    views-object two_objects-Holds 1 (20 ∷ []) (10 ∷ []) (20 ∷ []) ((20 ∷ []) ∷ []) ((10 ∷ []) ∷ [])
      refl refl refl

destroy_of_two : (destroy (some two_objects) ≡ ok objects) × (destroy none ≡ ok [])
destroy_of_two = destroy_lem objects two_objects-Holds

-- compares the first byte of two objects
abbrev first_byte : Bytes → ℕ
first_byte [] = 0
first_byte (b ∷ bs) = b

abbrev compare_bytes : Compare
compare_bytes x y = if ltb (first_byte x) (first_byte y) then negsuc 0 else pos 0

compare_bytes-asym :
    (x y : Bytes) → is_negative (compare_bytes x y) ≡ true → is_negative (compare_bytes y x) ≡ false
compare_bytes-asym x y h = ground arith

insert_sorted-IsSorted_example :
    Inserted plentiful two_objects 1
      (insert_in_order compare_bytes (15 ∷ []) objects)
      (insert_sorted plentiful (some two_objects) (some (15 ∷ [])) (some compare_bytes))
    × IsSorted compare_bytes (insert_in_order compare_bytes (15 ∷ []) objects)
insert_sorted-IsSorted_example =
    insert_sorted-IsSorted plentiful compare_bytes (15 ∷ []) plentiful-IsAllocator
      compare_bytes-asym two_objects-Holds refl (refl, tt)

-- zeroes an object of one byte and counts it
abbrev zero_byte : Visitor ℕ
zero_byte x s = (replicate (length x) 0, s + 1)

for_each-walk_example :
    (a' : DynArray) × (for_each (some two_objects) (some zero_byte) 0
      ≡ ok (true, some a', (walk zero_byte (λ x s. length-replicate (length x) 0) objects 0).1))
    × Holds a' (walk zero_byte (λ x s. length-replicate (length x) 0) objects 0).0
    × SameKind two_objects a'
for_each-walk_example =
    for_each-walk zero_byte (λ x s. length-replicate (length x) 0) two_objects-Holds 0

extract_runs : extract_back (some two_objects) true ≡ ok (copied two_objects (20 ∷ []))
unfolding extract_back shift_remove extract_objects read_bytes mul64
extract_runs = refl
