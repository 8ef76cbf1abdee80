-- ===== src/HashMap/Contract.antt =====
-- What dyn_hash_map_create and dyn_hash_map_destroy do.
use lib_msvl.Base.{
  le→ltb, eq→==, leb→le, leb→lt, ◌∙◌, ◌>>=◌, ℕ, zero, suc, ◌+◌, ◌≤◌, ◌<◌, ◌≡◌, ◌≢◌, refl, ap, sym,
  ◌⊎◌, inl, inr, Bool, true, false, not, ◌&&◌, Option, none, some, List, [], ◌∷◌, ◌++◌, arith,
  length, leb, ◌==◌, le→leb, ne→==, lt→ltb, Bool-cases, if◌then◌else◌, Run, ok, fault,
}
use lib_msvl.Machine.Memory.{Bytes}
use lib_msvl.Machine.Allocator.{Allocator, IsAllocator}
use lib_msvl.DynArray.Layout.{DynArray}
use lib_msvl.DynArray.Holds.{Holds}
use lib_msvl.DynArray.Create
use lib_msvl.DynArray.Contract.Create.{Created, create-Created}
use lib_msvl.DynArray.Contract.Destroy.{destroy_lem}
use lib_msvl.HashMap.Capacity.{Chosen, prime_capacity-Chosen, chosen-beyond, chosen-within}
use lib_msvl.HashMap.Table.{
  HashMap, max_hash_capacity, prime_capacity, rounds, fill_table, all_slots, finish, create,
  pointer_size, copy_struct, create_table, destroy_table, destroy,
}

-- Every array of the table is valid, empty, and of the kind asked for.
abbrev pub AllEmpty : ℕ → Bool → List DynArray → Type 0
AllEmpty d f [] = Unit
AllEmpty d f (a ∷ arrays) =
    (Holds a [] × (a.data_type_size ≡ d) × (a.destructor ≡ f)) × AllEmpty d f arrays

-- why the array of some slot could not be created
abbrev pub SlotFails : (ℕ → Allocator) → Type 0
SlotFails al =
    (i : ℕ) × (((al (i + 1)).malloc_struct ≡ false) ⊎ ((n : ℕ) × ((al (i + 1)).malloc n ≡ none)))

-- The slots of a table: `n` valid empty arrays, or a slot is NULL.
abbrev pub Filled : (ℕ → Allocator) → ℕ → Bool → ℕ → List (Option DynArray) → Type 0
Filled al d f n slots =
    ((arrays : List DynArray) × (all_slots al slots ≡ some arrays)
      × AllEmpty d f arrays
      × (length arrays ≡ n))
    ⊎ ((all_slots al slots ≡ none) × SlotFails al)

-- What follows the struct and the table: a map with a prime number of slots, or the double free
-- behind a failed slot.
abbrev pub Finished : (ℕ → Allocator) → ℕ → ℕ → Bool → Run (Option HashMap) → Type 0
Finished al n d f r =
    ((m : HashMap) × (r ≡ ok (some m))
      × (m.capacity ≡ n)
      × (length m.table ≡ n)
      × AllEmpty d f m.table
      × (m.size ≡ 0))
    ⊎ ((r ≡ fault) × SlotFails al)

module _ (al : ℕ → Allocator) (lawful : (i : ℕ) → IsAllocator (al i)) (d : ℕ) (f : Bool)
    (some_byte : 0 < d) (few_bytes : d < 256) where
  fill_table-Filled :
      (n i : ℕ)
      → (slots : List (Option DynArray)) × (fill_table al n i d f ≡ ok slots)
        × Filled al d f n slots
  unfolding fill_table all_slots
  fill_table-Filled zero i = ([], refl, inl ([], refl, tt, refl))
  fill_table-Filled (suc n) i =
      slot (create-Created (al (i + 1)) 0 d f (lawful (i + 1)) some_byte few_bytes (omega arith))
        (fill_table-Filled n (i + 1))
    where
      slot :
          Created (al (i + 1)) 0 d f (Create.create (al (i + 1)) 0 d f)
          → ((slots : List (Option DynArray)) × (fill_table al n (i + 1) d f ≡ ok slots)
              × Filled al d f n slots)
          → (slots : List (Option DynArray)) × (fill_table al (suc n) i d f ≡ ok slots)
            × Filled al d f (suc n) slots
      slot (inl (e, why)) (slots, rest, q) = (none ∷ slots, rw (e, rest), inr (refl, (i, why)))
      slot (inr (a, e, h, enough, least, width, kind))
            (slots, rest, inl (arrays, all, empty, len)) =
          (
            some a ∷ slots,
            rw (e, rest),
            inl (a ∷ arrays, rw all, ((h, width, kind), empty), ap suc len),
          )
      slot (inr (a, e, h, enough, least, width, kind)) (slots, rest, inr (missing, why)) =
          (some a ∷ slots, rw (e, rest), inr (rw missing, why))

  -- Were there room for the struct, the rest of dyn_hash_map_create would come to an empty map of
  -- valid empty slots; or, when the array of a slot cannot be created, it would free the struct
  -- twice.
  pub finish-Finished : (n : ℕ) → Finished al n d f (finish al n d f)
  unfolding finish
  finish-Finished n = let (slots, filled, q) = fill_table-Filled n 0 in rw filled (table slots q)
    where
      table :
          (slots : List (Option DynArray))
          → Filled al d f n slots
          → Finished al n d f (elim (all_slots al slots) [
            | none ↦ fault
            | some arrays ↦ ok (
                some (record {
                  capacity = n;
                  size = 0;
                  data_type_size = d;
                  table = arrays;
                  destructor = f;
                }))
          ])
      table slots (inl (arrays, all, empty, len)) = rw all (inl (_, refl, refl, len, empty, refl))
      table slots (inr (missing, why)) = rw missing (inr (refl, why))

-- the table of more slots than the limit
create_table-past :
    (al : ℕ → Allocator) (block : Bytes) (n d : ℕ) (f : Bool)
    → max_hash_capacity < n
    → create_table al block n d f ≡ ok none
unfolding create_table
create_table-past al block n d f past = rw (lt→ltb max_hash_capacity n past) refl

create_table-within :
    (al : ℕ → Allocator) (block : Bytes) (n d : ℕ) (f : Bool)
    → n ≤ max_hash_capacity
    → length block ≡ pointer_size
    → create_table al block n d f ≡ fault
unfolding create_table copy_struct
create_table-within al block n d f within size =
    rw (le→ltb max_hash_capacity n within) (rw size refl)

module _ (al : ℕ → Allocator) (d : ℕ) (f : Bool) (some_byte : d ≢ 0) (capacity : ℕ) where
  create-entered :
      (r : Run (Option HashMap))
      → capacity ≤ max_hash_capacity
      → ((block : Bytes) (n : ℕ)
          → (al 0).malloc pointer_size ≡ some block
          → (1021 < capacity → max_hash_capacity < n)
          → (capacity ≤ 1021 → n ≤ max_hash_capacity)
          → create_table al block n d f ≡ r)
      → create al capacity d f ≡ (elim ((al 0).malloc pointer_size) as (λ _. Run (Option HashMap)) [
        | none ↦ ok none
        | some block ↦ r
      ])
  unfolding create
  create-entered r le rest =
      rw (ne→== d 0 some_byte, le→leb capacity max_hash_capacity le)
        (by_block ((al 0).malloc pointer_size) refl)
    where
      c : Chosen 17 capacity (prime_capacity rounds 17 capacity)
      c = prime_capacity-Chosen capacity le

      by_block :
          (x : Option Bytes)
          → (al 0).malloc pointer_size ≡ x
          → (elim x as (λ _. Run (Option HashMap)) [
            | none ↦ ok none
            | some block ↦ (do
              actual_capacity ← prime_capacity rounds 17 capacity
              create_table al block actual_capacity d f)
          ])
            ≡ (elim x as (λ _. Run (Option HashMap)) [ none ↦ ok none | some block ↦ r ])
      by_block none e = refl
      by_block (some block) e = rw (c.result) (
          rest block c.chosen e (λ past. chosen-beyond capacity c past)
            (λ within. chosen-within capacity c within))

  create-beyond : 1021 < capacity → capacity ≤ max_hash_capacity → create al capacity d f ≡ ok none
  create-beyond past le =
      create-entered (ok none) le
        (λ block n e high low. create_table-past al block n d f (high past))
      ∙ whatever ((al 0).malloc pointer_size)
    where
      whatever :
          (x : Option Bytes)
          → ◌≡◌ {A = Run (Option HashMap)}
              (elim x as (λ _. Run (Option HashMap)) [ none ↦ ok none | some block ↦ ok none ])
              (ok none)
      whatever none = refl
      whatever (some block) = refl

  create-within :
      IsAllocator (al 0)
      → capacity ≤ 1021
      → create al capacity d f ≡ (elim ((al 0).malloc pointer_size) as (λ _. Run (Option HashMap)) [
        | none ↦ ok none
        | some block ↦ fault
      ])
  create-within lawful within = create-entered fault (omega arith) (λ block n e high low.
      create_table-within al block n d f (low within) (lawful.malloc-length pointer_size block e))

create-refused :
    (al : ℕ → Allocator) (capacity d : ℕ) (f : Bool)
    → (not (d == 0) && leb capacity max_hash_capacity) ≡ false
    → create al capacity d f ≡ ok none
unfolding create
create-refused al capacity d f e = rw e refl

and-false : (b : Bool) → (b && false) ≡ false
and-false true = refl
and-false false = refl

-- dyn_hash_map_create never returns a map, whatever is asked for and whenever malloc gives blocks
-- of the size that it is asked for: with a data_type_size other than 0 and a capacity up to 1021,
-- it returns NULL when malloc has no 8 bytes, and otherwise writes the struct past the end of them,
-- which is undefined behaviour; in every other case it returns NULL.
pub create-NeverMap :
    (al : ℕ → Allocator) (capacity d : ℕ) (f : Bool)
    → IsAllocator (al 0)
    → create al capacity d f ≡ (
        if not (d == 0) && leb capacity 1021
        then (elim ((al 0).malloc 8) as (λ _. Run (Option HashMap)) [
          | none ↦ ok none
          | some block ↦ fault
        ])
        else ok none)
create-NeverMap al capacity d f lawful = elim (Bool-cases (d == 0)) [
  | inl e ↦ rw e (create-refused al capacity d f (rw e refl))
  | inr e ↦ rw e (
      by_capacity (λ z. absurd (differ (sym (eq→== d 0 z) ∙ e))) (Bool-cases (leb capacity 1021))
        (Bool-cases (leb capacity max_hash_capacity)))
]
  where
    differ : true ≡ false → ⊥
    differ z = cc

    by_capacity :
        d ≢ 0
        → (leb capacity 1021 ≡ true) ⊎ (leb capacity 1021 ≡ false)
        → (leb capacity max_hash_capacity ≡ true) ⊎ (leb capacity max_hash_capacity ≡ false)
        → create al capacity d f ≡ (
            if leb capacity 1021
            then (elim ((al 0).malloc 8) as (λ _. Run (Option HashMap)) [
              | none ↦ ok none
              | some block ↦ fault
            ])
            else ok none)
    by_capacity byte (inl e) _ =
        rw e (create-within al d f byte capacity lawful (leb→le capacity 1021 e))
    by_capacity byte (inr e) (inl le) = rw e (
        create-beyond al d f byte capacity (leb→lt capacity 1021 e)
          (leb→le capacity max_hash_capacity le))
    by_capacity byte (inr e) (inr past) =
        rw e (create-refused al capacity d f (rw past (and-false (not (d == 0)))))

-- the arrays of a table and what they hold, slot by slot
abbrev pub HoldsAll : List DynArray → List (List Bytes) → Type 0
HoldsAll [] xss = xss ≡ []
HoldsAll (a ∷ arrays) [] = ⊥
HoldsAll (a ∷ arrays) (xs ∷ xss) = Holds a xs × HoldsAll arrays xss

-- what the destructors are called on
abbrev pub destructed_of : List DynArray → List (List Bytes) → List Bytes
destructed_of [] xss = []
destructed_of (a ∷ arrays) [] = []
destructed_of (a ∷ arrays) (xs ∷ xss) =
    (if a.destructor then xs else []) ++ destructed_of arrays xss

destroy_table_lem :
    (arrays : List DynArray) (xss : List (List Bytes))
    → HoldsAll arrays xss
    → destroy_table arrays ≡ ok (destructed_of arrays xss)
unfolding destroy_table
destroy_table_lem [] xss h = refl
destroy_table_lem (a ∷ arrays) [] h = absurd h
destroy_table_lem (a ∷ arrays) (xs ∷ xss) h =
    rw ((destroy_lem xs h.0).0, destroy_table_lem arrays xss h.1)

-- dyn_hash_map_destroy calls the destructor of each slot's array on every object that it holds,
-- slot by slot from the first, each object once; on a NULL map it does nothing.
pub destroy-HoldsAll :
    (m : HashMap) (xss : List (List Bytes))
    → HoldsAll m.table xss
    → (destroy (some m) ≡ ok (destructed_of m.table xss)) × (destroy none ≡ ok [])
unfolding destroy
destroy-HoldsAll m xss h = (destroy_table_lem m.table xss h, refl)
