-- ===== src/Machine/Memory.antt =====
-- One allocation as the list of its bytes. An access that leaves the allocation is undefined
-- behaviour.
use lib_msvl.Base.{
  ℕ, ◌+◌, ◌<◌, ◌≡◌, true, false, inl, inr, Bool-cases, leb→le, lt→leb, ap, ◌∙◌, sym, List, ◌++◌,
  append_assoc, append-nil, [], refl, Run, ok, fault, ◌>>=◌, arith, leb, le→leb, if◌then◌else◌,
  length, take, drop, length-take, length-drop, take-append-drop, length-append, take-append,
  drop-append,
}

abbrev pub Bytes : Type 0
Bytes = List ℕ

-- the `n` bytes from offset `i` on
unfoldable pub read_bytes : ℕ → ℕ → Bytes → Run Bytes
read_bytes i n mem = if leb (i + n) (length mem) then ok (take n (drop i mem)) else fault

-- memcpy from another allocation, whose bytes are `new`, to offset `i`
unfoldable pub memcpy : ℕ → Bytes → Bytes → Run Bytes
memcpy i new mem =
    if leb (i + length new) (length mem)
    then ok (take i mem ++ (new ++ drop (i + length new) mem))
    else fault

-- memmove of `n` bytes inside one allocation
unfoldable pub memmove : ℕ → ℕ → ℕ → Bytes → Run Bytes
memmove to from n mem = do moved ← read_bytes from n mem; memcpy to moved mem

-- The bytes of an allocation read at a seam.
pub read_bytes-append :
    (front mid back : Bytes) (i n : ℕ)
    → i ≡ length front
    → n ≡ length mid
    → read_bytes i n (front ++ (mid ++ back)) ≡ ok mid
unfolding read_bytes
read_bytes-append front mid back i n ei en = simp (
  ei,
  en,
  drop-append,
  take-append,
  le→leb (length front + length mid) (length (front ++ (mid ++ back)))
      (omega (arith, length-append front (mid ++ back), length-append mid back)),
)

-- A write at a seam replaces what stands there.
pub memcpy-append :
    (front mid back new : Bytes) (i : ℕ)
    → i ≡ length front
    → length new ≡ length mid
    → memcpy i new (front ++ (mid ++ back)) ≡ ok (front ++ (new ++ back))
unfolding memcpy
memcpy-append front mid back new i ei en = simp (ei, take-append, fits) (rw rest)
  where
    fits : leb (length front + length new) (length (front ++ (mid ++ back))) ≡ true
    fits = le→leb _ _ (omega (arith, length-append front (mid ++ back), length-append mid back))

    rest : drop (length front + length new) (front ++ (mid ++ back)) ≡ back
    rest = rw (← append_assoc front mid back) (
        ap (λ k. drop k ((front ++ mid) ++ back)) (omega (arith, length-append front mid))
        ∙ drop-append (front ++ mid) back)

-- Moving `mid` up over a gap of the same allocation: the bytes behind the gap stay.
pub memmove_up :
    (front mid gap back : Bytes) (to from n : ℕ)
    → from ≡ length front
    → n ≡ length mid
    → to ≡ length front + length gap
    → (hole : Bytes) × (length hole ≡ length gap)
      × (memmove to from n (front ++ (mid ++ (gap ++ back)))
          ≡ ok (front ++ (hole ++ (mid ++ back))))
unfolding memmove
memmove_up front mid gap back to from n ef en et = (
  hole,
  size,
  rw (read_bytes-append front mid (gap ++ back) from n ef en, seam)
      (memcpy-append (front ++ hole) over back mid to place same
        ∙ ap ok (append_assoc front hole (mid ++ back))),
)
  where
    hole : Bytes
    hole = take (length gap) (mid ++ gap)

    over : Bytes
    over = drop (length gap) (mid ++ gap)

    size : length hole ≡ length gap
    size = omega (arith, length-take (length gap) (mid ++ gap), length-append mid gap)

    same : length mid ≡ length over
    same = omega (arith, length-drop (length gap) (mid ++ gap), length-append mid gap)

    place : to ≡ length (front ++ hole)
    place = omega (arith, length-append front hole, size)

    seam : front ++ (mid ++ (gap ++ back)) ≡ (front ++ hole) ++ (over ++ back)
    seam =
        ap (λ t. front ++ t)
          (sym (append_assoc mid gap back)
            ∙ ap (λ t. t ++ back) (sym (take-append-drop (length gap) (mid ++ gap)))
            ∙ append_assoc hole over back)
        ∙ sym (append_assoc front hole (over ++ back))

-- Moving `mid` down onto `gone`: what is left behind it is as long as `gone`.
pub memmove_down :
    (front gone mid back : Bytes) (to from n : ℕ)
    → to ≡ length front
    → from ≡ length front + length gone
    → n ≡ length mid
    → (rest : Bytes) × (length rest ≡ length gone + length back)
      × (memmove to from n (front ++ (gone ++ (mid ++ back))) ≡ ok (front ++ (mid ++ rest)))
unfolding memmove
memmove_down front gone mid back to from n et ef en = (
  drop (length mid) (gone ++ (mid ++ back)),
  omega (arith, length-drop (length mid) (gone ++ (mid ++ back)), total),
  rw (taken) (
      ap (λ m. memcpy to mid (front ++ m)) (sym (take-append-drop (length mid) _))
      ∙ memcpy-append front (take (length mid) (gone ++ (mid ++ back))) _ mid to et
          (omega (arith, length-take (length mid) (gone ++ (mid ++ back)), total))),
)
  where
    total : length (gone ++ (mid ++ back)) ≡ length gone + length mid + length back
    total = omega (arith, length-append gone (mid ++ back), length-append mid back)

    taken : read_bytes from n (front ++ (gone ++ (mid ++ back))) ≡ ok mid
    taken = rw (← append_assoc front gone (mid ++ back)) (
        read_bytes-append (front ++ gone) mid back from n (omega (arith, length-append front gone))
          en)

-- A move that ends past the allocation is undefined behaviour.
pub memmove-fault :
    (to from n : ℕ) (mem : Bytes) → length mem < to + n → memmove to from n mem ≡ fault
unfolding memmove read_bytes memcpy
memmove-fault to from n mem h = elim (Bool-cases (leb (from + n) (length mem))) [
  | inr outside ↦ rw outside
  | inl inside ↦ rw (inside, past inside)
]
  where
    past :
        leb (from + n) (length mem) ≡ true
        → leb (to + length (take n (drop from mem))) (length mem) ≡ false
    past inside = lt→leb _ _ (
        omega (
          arith,
          leb→le (from + n) (length mem) inside,
          length-take n (drop from mem),
          length-drop from mem,
        ))

pub read_bytes-fault : (i n : ℕ) (mem : Bytes) → length mem < i + n → read_bytes i n mem ≡ fault
unfolding read_bytes
read_bytes-fault i n mem h = rw (lt→leb (i + n) (length mem) h)

pub memcpy-fault :
    (i : ℕ) (new mem : Bytes) → length mem < i + length new → memcpy i new mem ≡ fault
unfolding memcpy
memcpy-fault i new mem h = rw (lt→leb (i + length new) (length mem) h)

-- Reading a whole allocation.
pub read_bytes-all : (mem : Bytes) (n : ℕ) → n ≡ length mem → read_bytes 0 n mem ≡ ok mem
read_bytes-all mem n e =
    ap (read_bytes 0 n) (sym (append-nil mem)) ∙ read_bytes-append [] mem [] 0 n refl e
