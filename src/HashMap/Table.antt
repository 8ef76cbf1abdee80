-- ===== src/HashMap/Table.antt =====
-- dyn_hash_map_create and dyn_hash_map_destroy of dyn_hash_map.c. Each allocation meets an
-- allocator of its own: `al 0` serves the struct and the table, `al (i + 1)` the array of slot `i`.
use lib_msvl.Base.{
  ℕ, zero, suc, ◌+◌, ◌*◌, Bool, not, ◌&&◌, Option, none, some, List, [], ◌∷◌, ◌++◌, leb, ltb, ◌==◌,
  if◌then◌else◌, length, Run, ok, fault, out_of_fuel, ◌>>=◌, ◌>>◌,
}
use lib_msvl.Machine.Allocator.{Allocator}
use lib_msvl.Machine.Memory.{Bytes}
use lib_msvl.DynArray.Layout.{DynArray}
use lib_msvl.DynArray.Create
use lib_msvl.HashMap.Primes.{find_next_prime}

pub record HashMap : Type 0 where
  pub capacity : ℕ
  pub size : ℕ
  pub data_type_size : ℕ
  pub table : List DynArray
  pub destructor : Bool

-- MAX_HASH_CAPACITY, 1 << 10
abbrev pub max_hash_capacity : ℕ
max_hash_capacity = 1024

-- `while(actual_capacity < capacity) actual_capacity = find_next_prime(actual_capacity);`
unfoldable pub prime_capacity : ℕ → ℕ → ℕ → Run ℕ
prime_capacity zero actual_capacity capacity = out_of_fuel
prime_capacity (suc fuel) actual_capacity capacity =
    let rest = (do next ← find_next_prime actual_capacity; prime_capacity fuel next capacity) in
    if ltb actual_capacity capacity then rest else ok actual_capacity

-- From 17 on the primes rise, so a capacity up to the limit takes fewer rounds than the limit.
abbrev pub rounds : ℕ
rounds = 1025

-- sizeof of a pointer, and of dyn_hash_map_t, which has five members of 8 bytes
abbrev pub pointer_size : ℕ
pointer_size = 8

abbrev pub struct_size : ℕ
struct_size = 40

-- The memcpy of the struct into the block. What it writes is in the record that `finish` returns.
unfoldable pub copy_struct : Bytes → Run (Unit {0})
copy_struct block = if leb struct_size (length block) then ok tt else fault

module _ (al : ℕ → Allocator) where
  -- the arrays of `n` slots from slot `i` on, NULL where the allocation fails
  unfoldable pub fill_table : ℕ → ℕ → ℕ → Bool → Run (List (Option DynArray))
  fill_table zero i data_type_size destructor_func = ok []
  fill_table (suc n) i data_type_size destructor_func = do
    p ← Create.create (al (i + 1)) 0 data_type_size destructor_func
    rest ← fill_table n (i + 1) data_type_size destructor_func
    ok (p ∷ rest)

  -- the arrays, if no slot is NULL (the flag `success`)
  unfoldable pub all_slots : List (Option DynArray) → Option (List DynArray)
  all_slots [] = some []
  all_slots (none ∷ ps) = none
  all_slots (some a ∷ ps) = elim (all_slots ps) [ none ↦ none | some as' ↦ some (a ∷ as') ]

  -- What follows the allocation of the table. If a slot is NULL the arrays, the table and the
  -- struct are freed, and behind the block the struct is freed a second time.
  unfoldable pub finish : ℕ → ℕ → Bool → Run (Option HashMap)
  finish actual_capacity data_type_size destructor_func = do
    slots ← fill_table actual_capacity 0 data_type_size destructor_func
    elim (all_slots slots) [
      | none ↦ fault
      | some arrays ↦ ok (
          some (record {
            capacity = actual_capacity;
            size = 0;
            data_type_size = data_type_size;
            table = arrays;
            destructor = destructor_func;
          }))
    ]

  -- from the test of `actual_capacity` on, where `block` is what the struct is to stand in
  unfoldable pub create_table : Bytes → ℕ → ℕ → Bool → Run (Option HashMap)
  create_table block actual_capacity data_type_size destructor_func =
      if ltb max_hash_capacity actual_capacity then ok none else (do
        copy_struct block
        elim ((al 0).malloc (actual_capacity * 8)) as (λ _. Run (Option HashMap)) [
          | none ↦ ok none
          | some pointers ↦ finish actual_capacity data_type_size destructor_func
        ])

  -- `malloc(sizeof(dyn_hash_map))` names the pointer variable and not the type, and memcpy then
  -- writes a whole struct. The table is allocated before it, for the member `table`.
  unfoldable pub create : ℕ → ℕ → Bool → Run (Option HashMap)
  create capacity data_type_size destructor_func =
      if not (data_type_size == 0) && leb capacity max_hash_capacity
      then elim ((al 0).malloc pointer_size) as (λ _. Run (Option HashMap)) [
        | none ↦ ok none
        | some block ↦ (do
          actual_capacity ← prime_capacity rounds 17 capacity
          create_table block actual_capacity data_type_size destructor_func)
      ]
      else ok none

-- `for (i = 0; i < capacity; i++) dyn_array_destroy(table[i]);`: the objects that are destructed
unfoldable pub destroy_table : List DynArray → Run (List Bytes)
destroy_table [] = ok []
destroy_table (a ∷ arrays) = do
  gone ← Create.destroy (some a)
  rest ← destroy_table arrays
  ok (gone ++ rest)

unfoldable pub destroy : Option HashMap → Run (List Bytes)
destroy none = ok []
destroy (some m) = destroy_table m.table
