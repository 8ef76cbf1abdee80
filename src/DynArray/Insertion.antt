-- ===== src/DynArray/Insertion.antt =====
-- dyn_shift_insert puts the new objects between those before and those behind the position.
use native.Mathlib.Nat.{mul-le-mul_right}
use lib_msvl.Base.{
  ℕ, ◌+◌, ◌*◌, ◌≤◌, ◌<◌, ◌≡◌, refl, ap, sym, subst, ◌∙◌, ◌⊎◌, inl, inr, Bool, true, false, Option,
  some, List, [], ◌∷◌, ◌++◌, append_assoc, arith, length, take, drop, length-take, length-drop,
  length-append, take-append-drop, Bool-cases, leb, ◌==◌, if◌then◌else◌, ==→eq, ne→==, le→leb,
  ◌>>=◌, Run, ok,
}
use lib_msvl.Machine.Word.{add64, sub64}
use lib_msvl.Machine.Memory.{
  Bytes, read_bytes, memmove, read_bytes-append, memcpy-append, memmove_up,
}
use lib_msvl.Machine.Allocator.{Allocator, IsAllocator}
use lib_msvl.DynArray.Layout.{DynArray, dyn_max_capacity, position_of, size_n_elems, insert}
use lib_msvl.DynArray.Holds.{
  Holds, capacity-le, position_of-eq, size_n_elems-eq, concat, concat-append, length-concat, Sized,
  Sized-append, Sized-left, Sized-right,
}
use lib_msvl.DynArray.Growth.{SameKind, Refusal, request_size_increase-Growth}
use lib_msvl.DynArray.Shift.{write_objects, shift_insert_at, shift_insert}

nil_of_length : (xs : List Bytes) → length xs ≡ 0 → xs ≡ []
nil_of_length [] h = refl
nil_of_length (x ∷ xs) h = absurd (omega arith)

-- The objects `us ++ vs` with room for those of `ws` between them.
module _ {a : DynArray} (us ws vs : List Bytes) (h : Holds a (us ++ vs))
    (sized : Sized a.data_type_size ws) (roomy : length (us ++ vs) + length ws ≤ a.capacity) where
  before : length (concat us) ≡ length us * a.data_type_size
  before = length-concat a.data_type_size us (Sized-left a.data_type_size us vs h.sized)

  new : length (concat ws) ≡ length ws * a.data_type_size
  new = length-concat a.data_type_size ws sized

  behind : length (concat vs) ≡ length vs * a.data_type_size
  behind = length-concat a.data_type_size vs (Sized-right a.data_type_size us vs h.sized)

  total : length (us ++ vs) ≡ length us + length vs
  total = length-append us vs

  gap : Bytes
  gap = take (length ws * a.data_type_size) h.slack

  back : Bytes
  back = drop (length ws * a.data_type_size) h.slack

  length-gap : length gap ≡ length ws * a.data_type_size
  unfolding gap
  length-gap = omega (
    arith,
    length-take (length ws * a.data_type_size) h.slack,
    h.room,
    mul-le-mul_right a.data_type_size roomy,
  )

  buffer : a.array ≡ concat us ++ (concat vs ++ (gap ++ back))
  unfolding gap back
  buffer =
      h.layout
      ∙ ap (λ t. t ++ h.slack) (concat-append us vs)
      ∙ append_assoc (concat us) (concat vs) h.slack
      ∙ ap (λ t. concat us ++ (concat vs ++ t))
          (sym (take-append-drop (length ws * a.data_type_size) h.slack))

  -- the buffer after the objects behind the position have moved up
  moved : Run Bytes
  moved =
      if length us == a.size
      then ok a.array
      else memmove (position_of a (add64 (length us) (length ws))) (position_of a (length us))
          (size_n_elems a (sub64 a.size (length us))) a.array

  moved_lem :
      (hole : Bytes) × (length hole ≡ length ws * a.data_type_size)
      × (moved ≡ ok (concat us ++ (hole ++ (concat vs ++ back))))
  unfolding moved
  moved_lem = elim (Bool-cases (length us == a.size)) [
    | inl e ↦
        let nothing =
          ap concat
            (nil_of_length vs (omega (arith, ==→eq (length us) a.size e, total, h.count))) in
        (
          gap,
          length-gap,
          rw e (
              ap ok (
                buffer
                ∙ ap (λ t. concat us ++ (t ++ (gap ++ back))) nothing
                ∙ ap (λ t. concat us ++ (gap ++ (t ++ back))) (sym nothing))),
        )
    | inr ne ↦
        let (hole, size, shifted) =
          memmove_up (concat us) (concat vs) gap back
            (position_of a (add64 (length us) (length ws))) (position_of a (length us))
            (size_n_elems a (sub64 a.size (length us))) from_eq n_eq to_eq in
        (hole, omega (arith, size, length-gap), rw ne (ap (memmove _ _ _) buffer ∙ shifted))
  ]
    where
      sum : add64 (length us) (length ws) ≡ length us + length ws
      sum = omega (arith, total, roomy, capacity-le h)

      rest : sub64 a.size (length us) ≡ length vs
      rest = omega (arith, total, h.count, h.fits, capacity-le h)

      from_eq : position_of a (length us) ≡ length (concat us)
      from_eq = position_of-eq h (length us) (omega (arith, total, roomy)) ∙ sym before

      n_eq : size_n_elems a (sub64 a.size (length us)) ≡ length (concat vs)
      n_eq =
          ap (size_n_elems a) rest
          ∙ size_n_elems-eq h (length vs) (omega (arith, total, roomy))
          ∙ sym behind

      to_eq : position_of a (add64 (length us) (length ws)) ≡ length (concat us) + length gap
      to_eq =
          ap (position_of a) sum
          ∙ position_of-eq h (length us + length ws) (omega (arith, total, roomy))
          ∙ omega (arith, before, length-gap)

  after : DynArray
  after = record a {
    array = concat us ++ (concat ws ++ (concat vs ++ back));
    size = add64 a.size (length ws);
  }

  write_objects_lem :
      (more : Bytes) → write_objects a (length us) (length ws) (concat ws ++ more) ≡ ok after
  unfolding write_objects moved after
  write_objects_lem more =
      let (hole, size, shifted) = moved_lem in
      rw (shifted, source)
        (ap (λ r. r >>= λ b. ok (record a { array = b; size = add64 a.size (length ws) }))
          (memcpy-append (concat us) hole (concat vs ++ back) (concat ws)
            (position_of a (length us))
            (position_of-eq h (length us) (omega (arith, total, roomy)) ∙ sym before)
            (omega (arith, new, size))))
    where
      source : read_bytes 0 (size_n_elems a (length ws)) (concat ws ++ more) ≡ ok (concat ws)
      source =
          read_bytes-append [] (concat ws) more 0 (size_n_elems a (length ws)) refl
            (size_n_elems-eq h (length ws) (omega (arith, roomy)) ∙ sym new)

  after-Holds : Holds after (us ++ (ws ++ vs))
  unfolding after back
  after-Holds = record {
    slack = back;
    layout = simp (concat-append, append_assoc);
    sized =
        Sized-append a.data_type_size us (ws ++ vs) (Sized-left a.data_type_size us vs h.sized)
          (Sized-append a.data_type_size ws vs sized (Sized-right a.data_type_size us vs h.sized));
    count = omega (arith, all, total, h.count, roomy, capacity-le h);
    exponent = h.exponent;
    power = h.power;
    limit = h.limit;
    room = omega (
      arith,
      ap (λ (t : ℕ). t * a.data_type_size) all,
      ap (λ (t : ℕ). t * a.data_type_size) total,
      h.room,
      length-drop (length ws * a.data_type_size) h.slack,
      mul-le-mul_right a.data_type_size roomy,
    );
    fits = omega (arith, all, total, roomy);
    some_byte = h.some_byte;
    few_bytes = h.few_bytes;
  }
    where
      all : length (us ++ (ws ++ vs)) ≡ length us + length ws + length vs
      all = omega (arith, length-append us (ws ++ vs), length-append ws vs)

-- What an insertion of `ws` comes to: the array holds them as well, or it is as it was and there is
-- a reason.
abbrev pub Inserted : Allocator → DynArray → ℕ → List Bytes → Run (Bool × Option DynArray) → Type 0
Inserted al a n after r =
    ((a' : DynArray) × (r ≡ ok (true, some a')) × Holds a' after × SameKind a a')
    ⊎ ((r ≡ ok (false, some a)) × Refusal al a n)

module _ {al : Allocator} (lawful : IsAllocator al) {a : DynArray} (us ws vs : List Bytes)
    (h : Holds a (us ++ vs)) (sized : Sized a.data_type_size ws) (more : Bytes) where
  shift_insert_at-Holds :
      length ws ≤ dyn_max_capacity
      → ((a' : DynArray) × (shift_insert_at al a (length us) (length ws) (concat ws ++ more)
            ≡ ok (true, a'))
          × Holds a' (us ++ (ws ++ vs))
          × SameKind a a')
        ⊎ ((shift_insert_at al a (length us) (length ws) (concat ws ++ more) ≡ ok (false, a))
            × Refusal al a (length ws))
  unfolding shift_insert_at after
  shift_insert_at-Holds few =
      rw inside (elim (request_size_increase-Growth lawful h (length ws) few) [
        | inl (a', grown, h', same, size, roomy) ↦
            let sized' : Sized a'.data_type_size ws =
              subst (λ (d : ℕ). Sized d ws) (sym same.0) sized in
            inl (
              after us ws vs h' sized' roomy,
              rw (grown, write_objects_lem us ws vs h' sized' roomy more),
              after-Holds us ws vs h' sized' roomy,
              same,
            )
        | inr (kept, why) ↦ inr (rw kept, why)
      ])
    where
      inside : leb (length us) a.size ≡ true
      inside = le→leb (length us) a.size (omega (arith, h.count, length-append us vs))

  -- dyn_shift_insert at a position inside the array.
  pub shift_insert-Inserted :
      0 < length ws
      → length ws ≤ dyn_max_capacity
      → Inserted al a
          (length ws)
          (us ++ (ws ++ vs))
          (shift_insert al (some a) (length us) (length ws) insert (some (concat ws ++ more)))
  unfolding shift_insert
  shift_insert-Inserted some_new few = rw asked (elim (shift_insert_at-Holds few) [
    | inl (a', done, holds, same) ↦ inl (a', rw done, holds, same)
    | inr (kept, why) ↦ inr (rw kept, why)
  ])
    where
      asked : (length ws == 0) ≡ false
      asked = ne→== (length ws) 0 (λ e. omega arith)
