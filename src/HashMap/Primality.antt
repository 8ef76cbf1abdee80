-- ===== src/HashMap/Primality.antt =====
-- is_prime decides primality, and find_next_prime finds the least prime above its argument.
use native.Mathlib.Nat.{mul-le-mul, mul-le-mul_right, div-add-mod, mod_self, mul-mod_left, le_refl}
use lib_msvl.Base.{
  ℕ, zero, suc, ◌+◌, ◌*◌, ◌/◌, ◌%◌, ◌^◌, ◌≤◌, ◌<◌, ◌≡◌, ◌≢◌, refl, ap, ◌∙◌, subst, ◌⊎◌, inl, inr,
  Bool, true, false, arith, ltb, ltb→lt, ltb→le, le→ltb, ==→eq, eq→==, ◌==◌, Bool-cases, Run, ok,
}
use lib_msvl.HashMap.Primes.{max_int, try_divisors, is_prime, next_prime_from}

-- No number from 2 on and below `n` divides it.
abbrev pub IsPrime : ℕ → Type 0
IsPrime n = (2 ≤ n) × ((d : ℕ) → 2 ≤ d → d < n → n % d ≢ 0)

-- what the loop has found when it stops
abbrev pub Decides : ℕ → Run Bool → Type 0
Decides n r = ((r ≡ ok true) × IsPrime n) ⊎ ((r ≡ ok false) × (¬ IsPrime n))

-- Up to this bound no square overflows.
abbrev pub square_safe : ℕ
square_safe = 2 ^ 30

lt-or-le : (a b : ℕ) → (a < b) ⊎ (b ≤ a)
lt-or-le a b = omega arith

-- A divisor has a partner below the root: past the root nothing is left to try.
IsPrime-past_root :
    (n i : ℕ) → 2 ≤ n → n < i * i → ((d : ℕ) → 2 ≤ d → d < i → n % d ≢ 0) → IsPrime n
IsPrime-past_root n i two past tried =
    (two, λ d hd lt e. no_divisor d (n / d) hd lt (factors d e) e)
  where
    factors : (d : ℕ) → n % d ≡ 0 → n ≡ d * (n / d)
    factors d e = omega (arith, div-add-mod n d, e)

    partner_small : (d q : ℕ) → n ≡ d * q → i ≤ d → (q < i) ⊎ (i ≤ q) → q < i
    partner_small d q e le (inl lt) = lt
    partner_small d q e le (inr ge) = absurd (omega (arith, e, past, mul-le-mul le ge))

    two_parts : (d q : ℕ) → n ≡ d * q → d < n → 2 ≤ q
    two_parts d zero e lt = absurd (omega (arith, e, two))
    two_parts d (suc zero) e lt = absurd (omega (arith, e, lt))
    two_parts d (suc (suc q)) e lt = omega arith

    no_divisor : (d q : ℕ) → 2 ≤ d → d < n → n ≡ d * q → n % d ≢ 0
    no_divisor d q hd lt e z = elim (lt-or-le d i) [
      | inl low ↦ tried d hd low z
      | inr high ↦
          tried q (two_parts d q e lt) (partner_small d q e high (lt-or-le q i))
            (ap (λ (t : ℕ). t % q) e ∙ mul-mod_left d q)
    ]

-- A number whose square is within the bound is below the bound's root.
below_root : (n i : ℕ) → i * i ≤ n → n ≤ square_safe → i ≤ 2 ^ 15
below_root n i sq small = elim (lt-or-le (2 ^ 15) i) [
  | inr le ↦ le
  | inl over ↦ absurd (omega (arith, mul-le-mul over over, sq, small))
]

try_divisors-Decides :
    (fuel n i : ℕ)
    → 2 ≤ n
    → n ≤ square_safe
    → 2 ≤ i
    → i ≤ 2 ^ 15 + 1
    → n < fuel + i
    → ((d : ℕ) → 2 ≤ d → d < i → n % d ≢ 0)
    → Decides n (try_divisors fuel n i)
unfolding try_divisors
try_divisors-Decides zero n i two small hi root enough tried =
    absurd (tried n two (omega (arith, enough)) (mod_self n))
try_divisors-Decides (suc fuel) n i two small hi root enough tried =
    rw (le→ltb max_int (i * i) (omega (arith, mul-le-mul root root)))
      (elim (Bool-cases (ltb n (i * i))) [
        | inl past ↦ rw past (inl (refl, IsPrime-past_root n i two (ltb→lt n (i * i) past) tried))
        | inr within ↦ rw within (elim (Bool-cases (n % i == 0)) [
          | inl divides ↦ rw divides (
              inr (
                refl,
                λ prime. prime.1 i hi (proper (ltb→le n (i * i) within)) (==→eq (n % i) 0 divides),
              ))
          | inr not_divides ↦ rw not_divides (
              try_divisors-Decides fuel n (i + 1) two small (omega arith)
                (omega (arith, below_root n i (ltb→le n (i * i) within) small)) (omega arith)
                (λ d hd lt. next d (not_zero not_divides) hd lt (lt-or-le d i)))
        ])
      ])
  where
    proper : i * i ≤ n → i < n
    proper sq = omega (arith, mul-le-mul_right i hi)

    not_zero : (n % i == 0) ≡ false → n % i ≢ 0
    not_zero e z = cc (eq→== (n % i) 0 z)

    next : (d : ℕ) → n % i ≢ 0 → 2 ≤ d → d < i + 1 → (d < i) ⊎ (i ≤ d) → n % d ≢ 0
    next d ne hd lt (inl low) = tried d hd low
    next d ne hd lt (inr high) = let same : d ≡ i = omega arith in rw same ne

-- is_prime returns for every number up to 2 ^ 30, with no overflow of an int, and returns true
-- exactly for the primes.
pub is_prime-Decides : (n : ℕ) → n ≤ square_safe → Decides n (is_prime n)
unfolding is_prime
is_prime-Decides n small = elim (Bool-cases (ltb n 2)) [
  | inl tiny ↦ rw tiny (inr (refl, λ prime. omega (arith, prime.0, ltb→lt n 2 tiny)))
  | inr two ↦ rw two (
      try_divisors-Decides n n 2 (ltb→le n 2 two) small (omega arith) (omega arith) (omega arith)
        (λ d hd lt. absurd (omega (arith, hd, lt))))
]

-- The least prime from `i` on, found before the prime `q`.
pub next_prime_from-least :
    (rounds i q : ℕ)
    → IsPrime q
    → q ≤ square_safe
    → i ≤ q
    → q < i + rounds
    → (p : ℕ) × (next_prime_from rounds i ≡ ok p)
      × IsPrime p
      × (i ≤ p)
      × (p ≤ q)
      × ((k : ℕ) → i ≤ k → k < p → ¬ IsPrime k)
unfolding next_prime_from
next_prime_from-least zero i q prime small le lt = absurd (omega arith)
next_prime_from-least (suc rounds) i q prime small le lt = elim (is_prime-Decides i (omega arith)) [
  | inl (found, i_prime) ↦
      (i, rw found, i_prime, le_refl i, le, λ k hk hl. absurd (omega (arith, hk, hl)))
  | inr (no_prime, not_prime) ↦
      let ahead : i + 1 ≤ q = step not_prime (lt-or-le i q) in
      let (p, r, pr, low, high, least) =
        next_prime_from-least rounds (i + 1) q prime small ahead (omega arith) in
      (
        p,
        rw no_prime r,
        pr,
        omega (arith, low),
        high,
        λ k hk hl. skip k p not_prime least hk hl (lt-or-le i k),
      )
]
  where
    step : (¬ IsPrime i) → (i < q) ⊎ (q ≤ i) → i + 1 ≤ q
    step not_prime (inl lt') = omega arith
    step not_prime (inr ge) =
        let same : q ≡ i = omega arith in absurd (not_prime (subst IsPrime same prime))

    skip :
        (k p : ℕ)
        → (¬ IsPrime i)
        → ((j : ℕ) → i + 1 ≤ j → j < p → ¬ IsPrime j)
        → i ≤ k
        → k < p
        → (i < k) ⊎ (k ≤ i)
        → ¬ IsPrime k
    skip k p not_prime least hk hl (inl over) = least k (omega arith) hl
    skip k p not_prime least hk hl (inr at) = let same : k ≡ i = omega arith in rw same not_prime
