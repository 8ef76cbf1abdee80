-- ===== src/HashMap/Examples.antt =====
-- The theorems about dyn_hash_map.c at a concrete input, and runs of its functions.
use lib_msvl.Base.{◌≡◌, refl, true, false, none, some, [], ◌∷◌, arith, replicate, ok, fault}
use lib_msvl.Machine.Sample.{plentiful, plentiful-IsAllocator}
use lib_msvl.DynArray.Layout.{DynArray}
use lib_msvl.DynArray.Holds.{Holds}
use lib_msvl.HashMap.Primes.{is_prime, try_divisors, find_next_prime, next_prime_from}
use lib_msvl.HashMap.Primality.{Decides, is_prime-Decides}
use lib_msvl.HashMap.Capacity.{Chosen, prime_capacity-Chosen}
use lib_msvl.HashMap.Table.{HashMap, prime_capacity, rounds, create, destroy}
use lib_msvl.HashMap.Contract.{create-NeverMap, destroy-HoldsAll}

is_prime-Decides_example : Decides 91 (is_prime 91)
is_prime-Decides_example = is_prime-Decides 91 (omega arith)

prime_capacity-Chosen_example : Chosen 17 100 (prime_capacity rounds 17 100)
prime_capacity-Chosen_example = prime_capacity-Chosen 100 (omega arith)

table_too_large : create (λ i. plentiful) 1022 8 false ≡ ok none
table_too_large = create-NeverMap (λ i. plentiful) 1022 8 false plentiful-IsAllocator

next_of_17 : find_next_prime 17 ≡ ok 19
unfolding find_next_prime next_prime_from is_prime try_divisors
next_of_17 = refl

create-NeverMap_example : create (λ i. plentiful) 20 8 false ≡ fault
create-NeverMap_example = create-NeverMap (λ i. plentiful) 20 8 false plentiful-IsAllocator

-- a slot with one object and an empty one
abbrev slot : DynArray
slot = record {
  capacity = 16;
  size = 1;
  data_type_size = 1;
  array = 10 ∷ replicate 15 0;
  destructor = true;
}

slot-Holds : Holds slot ((10 ∷ []) ∷ [])
slot-Holds = record {
  slack = replicate 15 0;
  layout = refl;
  sized = (refl, tt);
  count = refl;
  exponent = 4;
  power = refl;
  limit = omega arith;
  room = refl;
  fits = omega arith;
  some_byte = omega arith;
  few_bytes = omega arith;
}

abbrev one_slot : HashMap
one_slot = record {
  capacity = 1;
  size = 1;
  data_type_size = 1;
  table = slot ∷ [];
  destructor = true;
}

destroy-one_slot : (destroy (some one_slot) ≡ ok ((10 ∷ []) ∷ [])) × (destroy none ≡ ok [])
destroy-one_slot = destroy-HoldsAll one_slot (((10 ∷ []) ∷ []) ∷ []) (slot-Holds, refl)
