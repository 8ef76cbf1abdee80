-- ===== src/DynArray/Growth.antt =====
-- dyn_request_size_increase: the loop of doublings ends, and the objects survive a reallocation.
use lib_msvl.Base.{
  ℕ, zero, suc, ◌+◌, ◌*◌, ◌≤◌, ◌<◌, ◌≡◌, refl, ap, sym, ◌∙◌, ◌⊎◌, inl, inr, Bool, true, false, none,
  List, ◌++◌, append_assoc, arith, length, take, drop, length-append, take-append-drop, Bool-cases,
  Option-cases, ltb, leb, ltb→lt, ltb→le, leb→le, leb→lt, Run, ok,
}
use native.Mathlib.Nat.{mul-le-mul_right}
use lib_msvl.Machine.Word.{pow2, pow2_mono, pow2-lt, mul64, mul64-eq, add64, shl1}
use lib_msvl.Machine.Memory.{Bytes}
use lib_msvl.Machine.Allocator.{Allocator, IsAllocator}
use lib_msvl.DynArray.Layout.{DynArray, dyn_max_capacity, double_until, doublings}
use lib_msvl.DynArray.Holds.{
  Holds, buffer-lt-word, capacity-le, length-array, concat, length-concat,
}
use lib_msvl.DynArray.Shift.{reallocate, request_size_increase}

shl1-pow2 : (j : ℕ) → j < 56 → shl1 (pow2 j) ≡ pow2 (suc j)
shl1-pow2 j h = omega (arith, pow2_mono (suc j) 56 h)

-- The loop ends within the fuel at a power of two that is large enough, within the limit, and is
-- the start or less than twice what is wanted.
pub record Doubled (j wanted : ℕ) (r : Run ℕ) : Type 0 where
  pub exponent : ℕ
  pub result : r ≡ ok (pow2 exponent)
  pub enough : wanted ≤ pow2 exponent
  pub limit : exponent ≤ 56
  pub from_start : j ≤ exponent
  pub least : (exponent ≡ j) ⊎ (pow2 exponent < 2 * wanted)

pub double_until-Doubled :
    (fuel j wanted : ℕ)
    → j ≤ 56
    → 57 ≤ fuel + j
    → wanted ≤ pow2 56
    → Doubled j wanted (double_until fuel (pow2 j) wanted)
unfolding double_until
double_until-Doubled zero j wanted hj hf hw = absurd (omega arith)
double_until-Doubled (suc fuel) j wanted hj hf hw = elim (Bool-cases (ltb (pow2 j) wanted)) [
  | inl more ↦
      let lt : pow2 j < wanted = ltb→lt (pow2 j) wanted more in
      let below : j < 56 = pow2-lt j 56 (omega (arith, lt)) in
      let ih = double_until-Doubled fuel (suc j) wanted below (omega arith) hw in
      rw (more, shl1-pow2 j below)
        (record {
          exponent = ih.exponent;
          result = ih.result;
          enough = ih.enough;
          limit = ih.limit;
          from_start = omega (arith, ih.from_start);
          least = inr (closer ih.exponent lt ih.least);
        })
  | inr done ↦ rw done (record {
    exponent = j;
    result = refl;
    enough = ltb→le (pow2 j) wanted done;
    limit = hj;
    from_start = omega arith;
    least = inl refl;
  })
]
  where
    closer : (m : ℕ) → pow2 j < wanted → (m ≡ suc j) ⊎ (pow2 m < 2 * wanted) → pow2 m < 2 * wanted
    closer m lt (inl e) = rw e (omega (arith, lt))
    closer m lt (inr l) = l

-- What stays when an array changes its contents.
abbrev pub SameKind : DynArray → DynArray → Type 0
SameKind a b = (b.data_type_size ≡ a.data_type_size) × (b.destructor ≡ a.destructor)

-- Why an insertion of `n` objects can be refused.
abbrev pub Refusal : Allocator → DynArray → ℕ → Type 0
Refusal al a n = (dyn_max_capacity < a.size + n) ⊎ ((bytes : ℕ) × (al.realloc a.array bytes ≡ none))

abbrev pub Growth : Allocator → DynArray → List Bytes → ℕ → Run (Bool × DynArray) → Type 0
Growth al a xs n r =
    ((a' : DynArray) × (r ≡ ok (true, a'))
      × Holds a' xs
      × SameKind a a'
      × (a'.size ≡ a.size)
      × (length xs + n ≤ a'.capacity))
    ⊎ ((r ≡ ok (false, a)) × Refusal al a n)

-- A block that begins with the old bytes holds the same objects.
Holds-realloc :
    {a : DynArray} {xs : List Bytes} (h : Holds a xs) (m : ℕ) (block : Bytes)
    → h.exponent ≤ m
    → m ≤ 56
    → length block ≡ pow2 m * a.data_type_size
    → take (length a.array) block ≡ a.array
    → Holds (record a { capacity = pow2 m; array = block }) xs
Holds-realloc {a} {xs} h m block up lim size kept = record {
  slack = h.slack ++ extra;
  layout = whole;
  sized = h.sized;
  count = h.count;
  exponent = m;
  power = refl;
  limit = lim;
  room = omega (
    arith,
    ap length whole,
    size,
    length-append (concat xs) (h.slack ++ extra),
    length-concat a.data_type_size xs h.sized,
  );
  fits = omega (arith, h.fits, h.power, pow2_mono h.exponent m up);
  some_byte = h.some_byte;
  few_bytes = h.few_bytes;
}
  where
    extra : Bytes
    extra = drop (length a.array) block

    whole : block ≡ concat xs ++ (h.slack ++ extra)
    whole =
        sym (take-append-drop (length a.array) block)
        ∙ ap (λ t. t ++ extra) (kept ∙ h.layout)
        ∙ append_assoc (concat xs) h.slack extra

module _ {al : Allocator} (lawful : IsAllocator al) {a : DynArray} {xs : List Bytes}
    (h : Holds a xs) where
  reallocate-Growth :
      (n : ℕ)
      → a.capacity < a.size + n
      → a.size + n ≤ pow2 56
      → Growth al a xs n (reallocate al a (a.size + n))
  unfolding reallocate
  reallocate-Growth n over within =
      rw (start, d.result)
        (elim (Option-cases (al.realloc a.array bytes)) [
          | inl e ↦ rw e (inr (refl, inr (bytes, e)))
          | inr (block, e) ↦ rw e (
              inl (
                record a { capacity = pow2 d.exponent; array = block },
                refl,
                Holds-realloc h d.exponent block (omega (arith, d.from_start)) d.limit
                    (lawful.realloc-length a.array bytes block e ∙ exact)
                    (lawful.realloc-take a.array bytes block e
                      (omega (arith, exact, length-array, larger))),
                (refl, refl),
                refl,
                omega (arith, h.count, d.enough),
              ))
        ])
    where
      below : h.exponent < 56
      below = pow2-lt h.exponent 56 (omega (arith, h.power))

      start : shl1 a.capacity ≡ pow2 (suc h.exponent)
      start = ap shl1 h.power ∙ shl1-pow2 h.exponent below

      d :
          Doubled
            (suc h.exponent)
            (a.size + n)
            (double_until doublings (pow2 (suc h.exponent)) (a.size + n))
      d = double_until-Doubled doublings (suc h.exponent) (a.size + n) below (omega arith) within

      bytes : ℕ
      bytes = mul64 (pow2 d.exponent) a.data_type_size

      exact : bytes ≡ pow2 d.exponent * a.data_type_size
      exact = mul64-eq (pow2 d.exponent) a.data_type_size (
          buffer-lt-word (pow2 d.exponent) a.data_type_size (pow2_mono d.exponent 56 d.limit)
            h.few_bytes)

      larger : a.capacity * a.data_type_size ≤ pow2 d.exponent * a.data_type_size
      larger =
          mul-le-mul_right a.data_type_size
            (omega (arith, h.power, pow2_mono h.exponent d.exponent (omega (arith, d.from_start))))

  pub request_size_increase-Growth :
      (n : ℕ) → n ≤ dyn_max_capacity → Growth al a xs n (request_size_increase al a n)
  unfolding request_size_increase
  request_size_increase-Growth n hn = rw plain (elim (Bool-cases (leb (a.size + n) a.capacity)) [
    | inl room ↦ rw room (
        inl (
          a,
          refl,
          h,
          (refl, refl),
          refl,
          omega (arith, leb→le (a.size + n) a.capacity room, h.count),
        ))
    | inr full ↦ rw full (elim (Bool-cases (leb (a.size + n) dyn_max_capacity)) [
      | inl within ↦ rw within (
          reallocate-Growth n (leb→lt (a.size + n) a.capacity full)
            (leb→le (a.size + n) dyn_max_capacity within))
      | inr beyond ↦ rw beyond (inr (refl, inl (leb→lt (a.size + n) dyn_max_capacity beyond)))
    ])
  ])
    where
      plain : add64 a.size n ≡ a.size + n
      plain = omega (arith, h.count, h.fits, capacity-le h)
