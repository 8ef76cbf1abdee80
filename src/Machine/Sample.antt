-- ===== src/Machine/Sample.antt =====
-- An allocator that never fails keeps the laws: they can be met.
use mathlib.Core.Option.{some-injective}
use lib_msvl.Base.{
  ℕ, zero, suc, ◌≤◌, ◌≡◌, refl, ap, sym, ◌∙◌, true, some, [], ◌∷◌, ◌++◌, arith, length, take,
  replicate, length-take, length-append, length-replicate,
}
use lib_msvl.Machine.Memory.{Bytes}
use lib_msvl.Machine.Allocator.{Allocator, IsAllocator}

abbrev pub plentiful : Allocator
plentiful = record {
  malloc_struct = true;
  malloc = λ n. some (replicate n 0);
  realloc = λ old n. some (take n (old ++ replicate n 0));
}

take-take : (n : ℕ) (xs ys : Bytes) → length xs ≤ n → take (length xs) (take n (xs ++ ys)) ≡ xs
take-take n [] ys h = refl
take-take zero (x ∷ xs) ys h = absurd (omega arith)
take-take (suc n) (x ∷ xs) ys h = ap (λ t. x ∷ t) (take-take n xs ys (omega arith))

pub plentiful-IsAllocator : IsAllocator plentiful
plentiful-IsAllocator = record {
  malloc-length = λ n b e. ap length (sym (some-injective _ _ e)) ∙ length-replicate {A = ℕ} n 0;
  realloc-length = λ old n b e. omega (
    arith,
    ap length (some-injective _ _ e),
    length-take n (old ++ replicate n 0),
    length-append old (replicate n 0),
    length-replicate {A = ℕ} n 0,
  );
  realloc-take = λ old n b e h.
      ap (take (length old)) (sym (some-injective _ _ e)) ∙ take-take n old (replicate n 0) h;
}
