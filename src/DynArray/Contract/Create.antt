-- ===== src/DynArray/Contract/Create.antt =====
-- dyn_array_create and dyn_array_import.
use lib_msvl.Base.{
  ℕ, ◌*◌, ◌^◌, ◌≤◌, ◌<◌, ◌≡◌, ◌≢◌, refl, ap, sym, subst, ◌∙◌, ◌⊎◌, inl, inr, Bool, true, false, not,
  ◌&&◌, Option, none, some, List, [], ◌++◌, arith, append-nil, length, leb, ◌==◌, le→leb, leb→le,
  lt→leb, le→ltb, lt→ltb, leb→lt, ==→eq, ne→==, eq→==, Bool-cases, Option-cases, if◌then◌else◌, Run,
  ok, fault,
}
use lib_msvl.Machine.Word.{word, mul64, mul64-eq, pow2, pow2_mono, pow2-lt}
use lib_msvl.Machine.Memory.{Bytes, read_bytes-all, memcpy-fault}
use lib_msvl.Machine.Allocator.{Allocator, IsAllocator}
use lib_msvl.DynArray.Layout.{DynArray, dyn_max_capacity, double_until, doublings}
use lib_msvl.DynArray.Holds.{Holds, Sized, concat, buffer-lt-word}
use lib_msvl.DynArray.Growth.{Doubled, double_until-Doubled}
use lib_msvl.DynArray.Insertion.{shift_insert-Inserted}
use lib_msvl.DynArray.Create.{create_buffer, create, fill, create_from}
use lib_msvl.DynArray.Shift.{
  shift_insert, push_back, write_objects, shift_insert_at, request_size_increase,
}

and_false : (b : Bool) → (b && false) ≡ false
and_false true = refl
and_false false = refl

-- What dyn_array_create promises of objects of 1 to 255 bytes: NULL if an allocation fails, and
-- else an empty array with a capacity of at least the one asked for, which is 16 or less than twice
-- it.
abbrev pub Created : Allocator → ℕ → ℕ → Bool → Run (Option DynArray) → Type 0
Created al capacity data_type_size destruct_func r =
    ((r ≡ ok none) × ((al.malloc_struct ≡ false) ⊎ ((n : ℕ) × (al.malloc n ≡ none))))
    ⊎ ((a : DynArray) × (r ≡ ok (some a))
        × Holds a []
        × (capacity ≤ a.capacity)
        × ((a.capacity ≡ 16) ⊎ (a.capacity < 2 * capacity))
        × (a.data_type_size ≡ data_type_size)
        × (a.destructor ≡ destruct_func))

abbrev fresh : ℕ → ℕ → Bytes → Bool → DynArray
fresh m data_type_size block destruct_func = record {
  capacity = pow2 m;
  size = 0;
  data_type_size = data_type_size;
  array = block;
  destructor = destruct_func;
}

fresh-Holds :
    (m data_type_size : ℕ) (block : Bytes) (destruct_func : Bool)
    → m ≤ 56
    → 0 < data_type_size
    → data_type_size < 256
    → length block ≡ pow2 m * data_type_size
    → Holds (fresh m data_type_size block destruct_func) []
fresh-Holds m data_type_size block destruct_func le pos small size = record {
  slack = block;
  layout = refl;
  sized = tt;
  count = refl;
  exponent = m;
  power = refl;
  limit = le;
  room = omega (arith, size);
  fits = omega arith;
  some_byte = pos;
  few_bytes = small;
}

module _ (al : Allocator) (capacity data_type_size : ℕ) (destruct_func : Bool) where
  -- what the loop of dyn_array_create computes
  grown : capacity ≤ dyn_max_capacity → Doubled 4 capacity (double_until doublings 16 capacity)
  grown le = double_until-Doubled doublings 4 capacity (omega arith) (omega arith) le

  create-enter :
      data_type_size ≢ 0
      → (le : capacity ≤ dyn_max_capacity)
      → create al capacity data_type_size destruct_func ≡ (
          if al.malloc_struct
          then ok (create_buffer al (pow2 (grown le).exponent) data_type_size destruct_func)
          else ok none)
  unfolding create
  create-enter ne le = rw (
    ne→== data_type_size 0 ne,
    le→leb capacity dyn_max_capacity le,
    (grown le).result,
    le→ltb dyn_max_capacity (pow2 (grown le).exponent)
        (pow2_mono (grown le).exponent 56 (grown le).limit),
  )

  -- dyn_array_create refuses objects of no byte and a capacity past DYN_MAX_CAPACITY.
  create-refused :
      (data_type_size ≡ 0) ⊎ (dyn_max_capacity < capacity)
      → create al capacity data_type_size destruct_func ≡ ok none
  unfolding create
  create-refused (inl e) = rw (eq→== data_type_size 0 e)
  create-refused (inr lt) =
      rw (lt→leb capacity dyn_max_capacity lt, and_false (not (data_type_size == 0)))

  -- dyn_array_create returns for all arguments and whatever the allocator does: the loop of
  -- doublings ends, and the branch that frees the struct and then writes to it is never taken.
  pub create-total :
      (r : Option DynArray) × (create al capacity data_type_size destruct_func ≡ ok r)
  create-total = elim (Bool-cases (data_type_size == 0)) [
    | inl zero_size ↦ (none, create-refused (inl (==→eq data_type_size 0 zero_size)))
    | inr some_size ↦ elim (Bool-cases (leb capacity dyn_max_capacity)) [
      | inr past ↦ (none, create-refused (inr (leb→lt capacity dyn_max_capacity past)))
      | inl le ↦
          let within = leb→le capacity dyn_max_capacity le in
          let nonzero : data_type_size ≢ 0 = λ e. cc (eq→== data_type_size 0 e) in
          (
            (if al.malloc_struct
                then create_buffer al (pow2 (grown within).exponent) data_type_size destruct_func
                else none),
            create-enter nonzero within ∙ if_ok al.malloc_struct _ _,
          )
    ]
  ]
    where
      if_ok :
          (b : Bool) (x y : Option DynArray) → (if b then ok x else ok y) ≡ ok (if b then x else y)
      if_ok true x y = refl
      if_ok false x y = refl

  -- With objects of 1 to 255 bytes and a capacity up to the limit, dyn_array_create returns NULL
  -- only if malloc fails, and else a valid empty array whose capacity is at least what is asked
  -- for, and is 16 or less than twice what is asked for.
  pub create-Created :
      IsAllocator al
      → 0 < data_type_size
      → data_type_size < 256
      → capacity ≤ dyn_max_capacity
      → Created al capacity data_type_size destruct_func
          (create al capacity data_type_size destruct_func)
  unfolding create_buffer mul64 grown
  create-Created lawful pos small le =
      rw (create-enter (λ e. omega arith) le) (elim (Bool-cases al.malloc_struct) [
        | inr no_struct ↦ rw no_struct (inl (refl, inl refl))
        | inl has_struct ↦ rw has_struct (elim (Option-cases (al.malloc bytes)) [
          | inl e ↦ rw e (inl (refl, inr (bytes, e)))
          | inr (block, e) ↦ rw e (
              inr (
                fresh d.exponent data_type_size block destruct_func,
                refl,
                fresh-Holds d.exponent data_type_size block destruct_func d.limit pos small (
                    lawful.malloc-length bytes block e
                    ∙ mul64-eq (pow2 d.exponent) data_type_size (
                        buffer-lt-word (pow2 d.exponent) data_type_size
                          (pow2_mono d.exponent 56 d.limit) small)),
                d.enough,
                at_most d.exponent d.least,
                refl,
                refl,
              ))
        ])
      ])
    where
      d : Doubled 4 capacity (double_until doublings 16 capacity)
      d = grown le

      bytes : ℕ
      bytes = mul64 (pow2 d.exponent) data_type_size

      at_most :
          (m : ℕ) → (m ≡ 4) ⊎ (pow2 m < 2 * capacity) → (pow2 m ≡ 16) ⊎ (pow2 m < 2 * capacity)
      at_most m (inl e) = inl (ap pow2 e)
      at_most m (inr lt) = inr lt

-- the array whose buffer has wrapped to no byte
abbrev hollow : ℕ → Bool → DynArray
hollow m destruct_func = fresh 56 (256 * m) [] destruct_func

wrapped : (m : ℕ) → mul64 (pow2 56) (256 * m) ≡ 0
unfolding mul64
wrapped m = omega arith

write_objects-hollow :
    (m : ℕ) (destruct_func : Bool) (object : Bytes)
    → 0 < m
    → 256 * m < word
    → length object ≡ 256 * m
    → write_objects (hollow m destruct_func) 0 1 object ≡ fault
unfolding write_objects
write_objects-hollow m destruct_func object pos fits len = rw (
  read_bytes-all object (mul64 (256 * m) 1) (mul64-eq (256 * m) 1 (omega arith) ∙ omega arith),
  memcpy-fault (mul64 0 (256 * m)) object [] (omega arith),
)

-- For objects of a multiple of 256 bytes and a capacity past half of DYN_MAX_CAPACITY the size of
-- the buffer wraps to 0: dyn_array_create asks malloc for no byte, and if that succeeds the array
-- claims room for 2 ^ 56 objects; the first dyn_array_push_back of an object is then undefined
-- behaviour.
pub create-overflow :
    (al : Allocator) (capacity m : ℕ) (destruct_func : Bool) (object : Bytes)
    → 2 ^ 55 < capacity
    → capacity ≤ dyn_max_capacity
    → 0 < m
    → 256 * m < word
    → al.malloc_struct ≡ true
    → al.malloc 0 ≡ some []
    → length object ≡ 256 * m
    → (a : DynArray) × (create al capacity (256 * m) destruct_func ≡ ok (some a))
      × (a.capacity ≡ dyn_max_capacity)
      × (push_back al (some a) (some object) ≡ fault)
unfolding create_buffer push_back shift_insert shift_insert_at request_size_increase grown
create-overflow al capacity m destruct_func object big le pos fits has_struct empty len = (
  hollow m destruct_func,
  create-enter al capacity (256 * m) destruct_func (λ e. omega arith) le
      ∙ rw (has_struct)
          (ap ok (ap (λ k. create_buffer al (pow2 k) (256 * m) destruct_func) top ∙ buffer)),
  refl,
  rw (write_objects-hollow m destruct_func object pos fits len),
)
  where
    d : Doubled 4 capacity (double_until doublings 16 capacity)
    d = grown al capacity (256 * m) destruct_func le

    top : d.exponent ≡ 56
    top = omega (arith, d.limit, pow2-lt 55 d.exponent (omega (arith, d.enough)))

    buffer : create_buffer al (pow2 56) (256 * m) destruct_func ≡ some (hollow m destruct_func)
    buffer = rw (wrapped m, empty, create_buffer)

-- dyn_array_import.
abbrev pub Imported : Allocator → List Bytes → ℕ → Bool → Run (Option DynArray) → Type 0
Imported al xs data_type_size destruct_func r =
    ((r ≡ ok none)
      × ((al.malloc_struct ≡ false)
          ⊎ ((n : ℕ) × (al.malloc n ≡ none))
          ⊎ ((old : Bytes) × (n : ℕ) × (al.realloc old n ≡ none))))
    ⊎ ((a : DynArray) × (r ≡ ok (some a))
        × Holds a xs
        × (a.data_type_size ≡ data_type_size)
        × (a.destructor ≡ destruct_func))

-- dyn_array_import of at least one object of 1 to 255 bytes, at most DYN_MAX_CAPACITY of them,
-- copies all of them in order into a new valid array, or returns NULL after a failed allocation.
pub create_from-Imported :
    (al : Allocator) (xs : List Bytes) (data_type_size : ℕ) (destruct_func : Bool) (more : Bytes)
    → IsAllocator al
    → 0 < data_type_size
    → data_type_size < 256
    → 0 < length xs
    → length xs ≤ dyn_max_capacity
    → Sized data_type_size xs
    → Imported al xs data_type_size destruct_func
        (create_from al (some (concat xs ++ more)) (length xs) data_type_size destruct_func)
unfolding create_from fill
create_from-Imported al xs data_type_size destruct_func more lawful pos small some_x few sized =
    rw (lt→ltb 0 (length xs) some_x)
      (elim (create-Created al (length xs) data_type_size destruct_func lawful pos small few) [
        | inl (e, inl why) ↦ rw e (inl (refl, inl why))
        | inl (e, inr why) ↦ rw e (inl (refl, inr (inl why)))
        | inr (a, e, h, enough, least, width, kind) ↦ rw e (filled a h width kind)
      ])
  where
    filled :
        (a : DynArray)
        → Holds a []
        → a.data_type_size ≡ data_type_size
        → a.destructor ≡ destruct_func
        → Imported al xs data_type_size destruct_func
            (fill al (concat xs ++ more) (length xs) (some a))
    filled a h width kind =
        elim (shift_insert-Inserted lawful [] xs [] h
          (subst (λ (d : ℕ). Sized d xs) (sym width) sized) more some_x few) [
            | inl (a', done, h', same) ↦ rw done (
                inr (
                  a',
                  refl,
                  subst (λ t. Holds a' t) (append-nil xs) h',
                  same.0 ∙ width,
                  same.1 ∙ kind,
                ))
            | inr (kept, inl over) ↦ absurd (omega (arith, h.count, few, over))
            | inr (kept, inr (n, e)) ↦ rw kept (inl (refl, inr (inr (a.array, n, e))))
          ]
