-- ===== src/HashMap/Primes.antt =====
-- is_prime and find_next_prime of dyn_hash_map.c. An int that overflows is undefined behaviour.
use lib_msvl.Base.{
  ℕ, zero, suc, ◌+◌, ◌-◌, ◌*◌, ◌%◌, ◌^◌, Bool, true, false, ltb, ◌==◌, if◌then◌else◌, Run, ok,
  fault, out_of_fuel, ◌>>=◌,
}

-- MAX_INT
abbrev pub max_int : ℕ
max_int = 2 ^ 31 - 1

-- `for(i = …;i * i <= n;i++) if(n % i == 0) return false;`
unfoldable pub try_divisors : ℕ → ℕ → ℕ → Run Bool
try_divisors zero n i = out_of_fuel
try_divisors (suc fuel) n i =
    let rest = try_divisors fuel n (i + 1) in
    if ltb max_int (i * i)
    then fault
    else if ltb n (i * i)
    then ok true
    else if n % i == 0
    then ok false
    else rest

-- A divisor that is tried is at most `n`, so `n` rounds are enough.
unfoldable pub is_prime : ℕ → Run Bool
is_prime n = if ltb n 2 then ok false else try_divisors n n 2

-- `for(…;i < MAX_INT;i++) if(is_prime(i)) return i;`, with `rounds` numbers below MAX_INT left
unfoldable pub next_prime_from : ℕ → ℕ → Run ℕ
next_prime_from zero i = ok max_int
next_prime_from (suc rounds) i =
    let rest = next_prime_from rounds (i + 1) in do found ← is_prime i; if found then ok i else rest

unfoldable pub find_next_prime : ℕ → Run ℕ
find_next_prime start = next_prime_from (max_int - (start + 1)) (start + 1)
