-- ===== src/HashMap/Capacity.antt =====
-- The capacity that dyn_hash_map_create chooses: the least prime that is large enough, from 17 on.
use native.Mathlib.Nat.{le_refl}
use lib_msvl.Base.{
  ℕ, zero, suc, ◌+◌, ◌-◌, ◌≤◌, ◌<◌, ◌≡◌, refl, ap, sym, ◌∙◌, ◌⊎◌, inl, inr, Bool, true, false,
  arith, ltb, ltb→lt, ltb→le, Bool-cases, Run, ok,
}
use lib_msvl.HashMap.Primes.{is_prime, try_divisors, find_next_prime}
use lib_msvl.HashMap.Primality.{IsPrime, is_prime-Decides, next_prime_from-least}
use lib_msvl.HashMap.Table.{prime_capacity, rounds}

-- A run of is_prime on a number of the table's range.
IsPrime-of_run : (n : ℕ) → n ≤ 2000 → is_prime n ≡ ok true → IsPrime n
IsPrime-of_run n small run = elim (is_prime-Decides n (omega arith)) [
  | inl (e, prime) ↦ prime
  | inr (e, not_prime) ↦ absurd (different (sym run ∙ e))
]
  where
    different : ◌≡◌ {A = Run Bool} (ok true) (ok false) → ⊥
    different e = cc

not-IsPrime_of_run : (n : ℕ) → n ≤ 2000 → is_prime n ≡ ok false → ¬ IsPrime n
not-IsPrime_of_run n small run = elim (is_prime-Decides n (omega arith)) [
  | inl (e, prime) ↦ absurd (different (sym run ∙ e))
  | inr (e, not_prime) ↦ not_prime
]
  where
    different : ◌≡◌ {A = Run Bool} (ok false) (ok true) → ⊥
    different e = cc

IsPrime-17 : IsPrime 17
unfolding is_prime try_divisors
IsPrime-17 = IsPrime-of_run 17 (omega arith) refl

-- the least prime past the limit of 1024
IsPrime-1031 : IsPrime 1031
unfolding is_prime try_divisors
IsPrime-1031 = IsPrime-of_run 1031 (omega arith) refl

find_next_prime-least :
    (start : ℕ)
    → start < 1031
    → (p : ℕ) × (find_next_prime start ≡ ok p)
      × IsPrime p
      × (start < p)
      × (p ≤ 1031)
      × ((k : ℕ) → start < k → k < p → ¬ IsPrime k)
unfolding find_next_prime
find_next_prime-least start lt =
    let (p, r, prime, low, high, least) =
      next_prime_from-least (2147483647 - (start + 1)) (start + 1) 1031 IsPrime-1031 (omega arith)
        (omega arith) (omega arith) in
    (p, r, prime, omega (arith, low), high, λ k hk hl. least k (omega (arith, hk)) hl)

-- What the loop chooses for the capacity `wanted`, started at `a`.
pub record Chosen (a wanted : ℕ) (r : Run ℕ) : Type 0 where
  pub chosen : ℕ
  pub result : r ≡ ok chosen
  pub prime : IsPrime chosen
  pub enough : wanted ≤ chosen
  pub from_start : a ≤ chosen
  pub limit : chosen ≤ 1031
  pub least : (k : ℕ) → a ≤ k → wanted ≤ k → k < chosen → ¬ IsPrime k

prime_capacity-from :
    (fuel a wanted : ℕ)
    → IsPrime a
    → a ≤ 1031
    → wanted ≤ 1031
    → 1031 < fuel + a
    → Chosen a wanted (prime_capacity fuel a wanted)
unfolding prime_capacity
prime_capacity-from zero a wanted prime top small enough = absurd (omega arith)
prime_capacity-from (suc fuel) a wanted prime top small enough = elim (Bool-cases (ltb a wanted)) [
  | inr done ↦ rw done (record {
    chosen = a;
    result = refl;
    prime = prime;
    enough = ltb→le a wanted done;
    from_start = le_refl a;
    limit = top;
    least = λ k low wide below. absurd (omega (arith, low, below));
  })
  | inl more ↦
      let lt : a < wanted = ltb→lt a wanted more in
      let (p, r, p_prime, above, p_top, between) = find_next_prime-least a (omega (arith, lt)) in
      let ih = prime_capacity-from fuel p wanted p_prime p_top small (omega (arith, above)) in
      rw (more, r)
        (record {
          chosen = ih.chosen;
          result = ih.result;
          prime = ih.prime;
          enough = ih.enough;
          from_start = omega (arith, above, ih.from_start);
          limit = ih.limit;
          least = λ k low wide below. elim (lt-or-le k p) [
            | inl before ↦ between k (omega (arith, lt, wide)) before
            | inr behind ↦ ih.least k behind wide below
          ];
        })
]
  where
    lt-or-le : (x y : ℕ) → (x < y) ⊎ (y ≤ x)
    lt-or-le x y = omega arith

-- For a capacity up to 1024 the loop ends, within its fuel, at the least prime that is at least 17
-- and at least the capacity asked for.
pub prime_capacity-Chosen :
    (wanted : ℕ) → wanted ≤ 1024 → Chosen 17 wanted (prime_capacity rounds 17 wanted)
prime_capacity-Chosen wanted le =
    prime_capacity-from rounds 17 wanted IsPrime-17 (omega arith) (omega arith) (omega arith)

no_prime_run : (k : ℕ) → k < 9 → is_prime (1022 + k) ≡ ok false
unfolding is_prime try_divisors
no_prime_run zero h = refl
no_prime_run (suc zero) h = refl
no_prime_run (suc (suc zero)) h = refl
no_prime_run (suc (suc (suc zero))) h = refl
no_prime_run (suc (suc (suc (suc zero)))) h = refl
no_prime_run (suc (suc (suc (suc (suc zero))))) h = refl
no_prime_run (suc (suc (suc (suc (suc (suc zero)))))) h = refl
no_prime_run (suc (suc (suc (suc (suc (suc (suc zero))))))) h = refl
no_prime_run (suc (suc (suc (suc (suc (suc (suc (suc zero)))))))) h = refl
no_prime_run (suc (suc (suc (suc (suc (suc (suc (suc (suc k))))))))) h = absurd (omega arith)

-- Past 1021 the choice is past the limit.
pub chosen-beyond :
    (wanted : ℕ) {r : Run ℕ} (c : Chosen 17 wanted r) → 1021 < wanted → 1024 < c.chosen
chosen-beyond wanted c past = elim (split c.chosen 1030) [
  | inr high ↦ omega (arith, high)
  | inl low ↦
      absurd (not-IsPrime_of_run c.chosen (omega (arith, low)) (run (c.chosen - 1022) low) c.prime)
]
  where
    split : (x y : ℕ) → (x ≤ y) ⊎ (y < x)
    split x y = omega arith

    run : (k : ℕ) → c.chosen ≤ 1030 → is_prime c.chosen ≡ ok false
    run k low =
        ap is_prime (omega (arith, c.enough, past))
        ∙ no_prime_run (c.chosen - 1022) (omega (arith, low, c.enough, past))

-- Up to 1021, which is a prime, it is within the limit.
pub chosen-within :
    (wanted : ℕ) {r : Run ℕ} (c : Chosen 17 wanted r) → wanted ≤ 1021 → c.chosen ≤ 1024
unfolding is_prime try_divisors
chosen-within wanted c le = elim (split 1021 c.chosen) [
  | inr low ↦ omega (arith, low)
  | inl high ↦ absurd (c.least 1021 (omega arith) le high (IsPrime-of_run 1021 (omega arith) refl))
]
  where
    split : (x y : ℕ) → (x < y) ⊎ (y ≤ x)
    split x y = omega arith
