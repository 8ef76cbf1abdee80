-- ===== src/Machine/Word.antt =====
-- size_t of a 64-bit target: sums, differences and products wrap at 2 ^ 64.
use lib_msvl.Base.{ℕ, zero, suc, ◌+◌, ◌-◌, ◌*◌, ◌%◌, ◌^◌, ◌≤◌, ◌<◌, ◌≡◌, ap, arith, ◌⊎◌, inl, inr}
use native.Mathlib.Nat.{mod-eq_of_lt, mul_comm}

abbrev pub word : ℕ
word = 2 ^ 64

abbrev pub add64 : ℕ → ℕ → ℕ
add64 a b = (a + b) % word

abbrev pub sub64 : ℕ → ℕ → ℕ
sub64 a b = (a + word - b) % word

-- shut: a product is read through `mul64-eq`
unfoldable pub mul64 : ℕ → ℕ → ℕ
mul64 a b = (a * b) % word

-- `c << 1`
abbrev pub shl1 : ℕ → ℕ
shl1 c = (c * 2) % word

pub mul64-eq : (a b : ℕ) → a * b < word → mul64 a b ≡ a * b
unfolding mul64
mul64-eq a b h = omega (arith, mod-eq_of_lt h)

pub mul64_comm : (a b : ℕ) → mul64 a b ≡ mul64 b a
unfolding mul64
mul64_comm a b = ap (λ (t : ℕ). t % word) (mul_comm a b)

-- A product that is smaller in both factors does not wrap either.
pub mul64-eq_of_le : (a b m : ℕ) → a ≤ m → m * b < word → mul64 a b ≡ a * b
mul64-eq_of_le a b m h k = mul64-eq a b (grind arith)

-- 2 ^ n by recursion, so that it computes with `n + 1`.
abbrev pub pow2 : ℕ → ℕ
pow2 zero = 1
pow2 (suc n) = 2 * pow2 n

pub pow2_pos : (n : ℕ) → 0 < pow2 n
pow2_pos zero = omega arith
pow2_pos (suc n) = omega (arith, pow2_pos n)

pub pow2_mono : (m n : ℕ) → m ≤ n → pow2 m ≤ pow2 n
pow2_mono zero n h = pow2_pos n
pow2_mono (suc m) zero h = elim h [ ]
pow2_mono (suc m) (suc n) h = omega (arith, pow2_mono m n (omega arith))

-- An order between powers is one between exponents.
pub pow2-lt : (m n : ℕ) → pow2 m < pow2 n → m < n
pow2-lt m n h = elim (split m n) [ inl lt ↦ lt | inr ge ↦ absurd (omega (arith, pow2_mono n m ge)) ]
  where
    split : (a b : ℕ) → (a < b) ⊎ (b ≤ a)
    split a b = omega arith
