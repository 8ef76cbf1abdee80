-- ===== src/DynArray/Removing.antt =====
-- dyn_shift_remove: an erasure takes the objects out and hands them to the destructor; an
-- extraction copies them.
use lib_msvl.Base.{
  ℕ, ◌+◌, ◌*◌, ◌<◌, ◌≡◌, refl, ap, sym, ◌∙◌, inl, inr, Bool, true, false, none, some, List, [], ◌∷◌,
  ◌++◌, append_assoc, arith, length, length-append, Bool-cases, leb, ltb, ◌==◌, if◌then◌else◌,
  ne→==, le→leb, ltb→le, Run, ok,
}
use lib_msvl.Machine.Word.{add64, sub64, mul64}
use lib_msvl.Machine.Memory.{Bytes, read_bytes, memmove, read_bytes-append, memmove_down}
use lib_msvl.DynArray.Layout.{DynArray, position_of, size_n_elems, erase, extract}
use lib_msvl.DynArray.Holds.{
  Holds, capacity-le, position_of-eq, size_n_elems-eq, concat, concat-append, length-concat, Sized,
  Sized-append, Sized-left, Sized-right,
}
use lib_msvl.DynArray.Growth.{SameKind}
use lib_msvl.DynArray.Shift.{
  destruct_objects, close_gap, erase_objects, extract_objects, shift_remove,
}

-- The destructor runs on the objects from first to last.
destruct_objects-append :
    (a : DynArray) (front : Bytes) (ws : List Bytes) (back : Bytes) (pos : ℕ)
    → a.array ≡ front ++ (concat ws ++ back)
    → Sized a.data_type_size ws
    → pos ≡ length front
    → destruct_objects (length ws) pos a ≡ ok ws
unfolding destruct_objects
destruct_objects-append a front [] back pos e s p = refl
destruct_objects-append a front (w ∷ ws) back pos e s p = rw (
  first,
  destruct_objects-append a (front ++ w) ws back (pos + a.data_type_size)
      (e' ∙ sym (append_assoc front w _)) s.1 (omega (arith, p, s.0, length-append front w)),
)
  where
    e' : a.array ≡ front ++ (w ++ (concat ws ++ back))
    e' = e ∙ ap (λ t. front ++ t) (append_assoc w (concat ws) back)

    first : read_bytes pos a.data_type_size a.array ≡ ok w
    first =
        ap (read_bytes pos a.data_type_size) e'
        ∙ read_bytes-append front w (concat ws ++ back) pos a.data_type_size p (sym s.0)

branch_ok :
    (b : Bool) {r : Run (List Bytes)} {x : List Bytes} (y : List Bytes)
    → r ≡ ok x
    → (if b then r else ok y) ≡ ok (if b then x else y)
branch_ok true y e = e
branch_ok false y e = refl

nil_of_length : (xs : List Bytes) → length xs ≡ 0 → xs ≡ []
nil_of_length [] h = refl
nil_of_length (x ∷ xs) h = absurd (omega arith)

module _ {a : DynArray} (us ws vs : List Bytes) (h : Holds a (us ++ (ws ++ vs))) where
  Sized-behind : Sized a.data_type_size (ws ++ vs)
  Sized-behind = Sized-right a.data_type_size us (ws ++ vs) h.sized

  before : length (concat us) ≡ length us * a.data_type_size
  before = length-concat a.data_type_size us (Sized-left a.data_type_size us (ws ++ vs) h.sized)

  going : length (concat ws) ≡ length ws * a.data_type_size
  going = length-concat a.data_type_size ws (Sized-left a.data_type_size ws vs Sized-behind)

  behind : length (concat vs) ≡ length vs * a.data_type_size
  behind = length-concat a.data_type_size vs (Sized-right a.data_type_size ws vs Sized-behind)

  total : length (us ++ (ws ++ vs)) ≡ length us + length ws + length vs
  total = omega (arith, length-append us (ws ++ vs), length-append ws vs)

  buffer : a.array ≡ concat us ++ (concat ws ++ (concat vs ++ h.slack))
  buffer = h.layout ∙ simp (concat-append, append_assoc)

  start : position_of a (length us) ≡ length (concat us)
  start = position_of-eq h (length us) (omega (arith, total, h.fits)) ∙ sym before

  past : add64 (length us) (length ws) ≡ length us + length ws
  past = omega (arith, total, h.fits, capacity-le h)

  -- the buffer after the objects behind the gap have moved down
  moved : Run Bytes
  moved =
      if ltb (add64 (length us) (length ws)) a.size
      then memmove (position_of a (length us)) (position_of a (add64 (length us) (length ws)))
          (size_n_elems a (sub64 a.size (add64 (length us) (length ws)))) a.array
      else ok a.array

  moved_lem :
      (rest : Bytes) × (length rest ≡ length ws * a.data_type_size + length h.slack)
      × (moved ≡ ok (concat us ++ (concat vs ++ rest)))
  unfolding moved
  moved_lem = elim (Bool-cases (ltb (add64 (length us) (length ws)) a.size)) [
    | inl more ↦
        let (rest, size, shifted) =
          memmove_down (concat us) (concat ws) (concat vs) h.slack (position_of a (length us))
            (position_of a (add64 (length us) (length ws)))
            (size_n_elems a (sub64 a.size (add64 (length us) (length ws)))) start from_eq n_eq in
        (rest, omega (arith, size, going), rw more (ap (memmove _ _ _) buffer ∙ shifted))
    | inr last ↦
        let nothing = ap concat (
          nil_of_length vs (
            omega
              (arith, ltb→le (add64 (length us) (length ws)) a.size last, past, total, h.count))) in
        (
          concat ws ++ h.slack,
          omega (arith, length-append (concat ws) h.slack, going),
          rw last (
              ap ok (
                buffer
                ∙ ap (λ t. concat us ++ (concat ws ++ (t ++ h.slack))) nothing
                ∙ ap (λ t. concat us ++ (t ++ (concat ws ++ h.slack))) (sym nothing))),
        )
  ]
    where
      from_eq :
          position_of a (add64 (length us) (length ws)) ≡ length (concat us) + length (concat ws)
      from_eq =
          ap (position_of a) past
          ∙ position_of-eq h (length us + length ws) (omega (arith, total, h.fits))
          ∙ omega (arith, before, going)

      rest_eq : sub64 a.size (add64 (length us) (length ws)) ≡ length vs
      rest_eq = omega (arith, past, total, h.count, h.fits, capacity-le h)

      n_eq : size_n_elems a (sub64 a.size (add64 (length us) (length ws))) ≡ length (concat vs)
      n_eq =
          ap (size_n_elems a) rest_eq
          ∙ size_n_elems-eq h (length vs) (omega (arith, total, h.fits))
          ∙ sym behind

  close_gap_lem :
      (a' : DynArray) × (close_gap a (length us) (length ws) ≡ ok a')
      × Holds a' (us ++ vs)
      × SameKind a a'
  unfolding close_gap moved
  close_gap_lem =
      let (rest, size, shifted) = moved_lem in
      (
        record a { array = concat us ++ (concat vs ++ rest); size = sub64 a.size (length ws) },
        rw shifted,
        record {
          slack = rest;
          layout = simp (concat-append, append_assoc);
          sized =
              Sized-append a.data_type_size us vs
                (Sized-left a.data_type_size us (ws ++ vs) h.sized)
                (Sized-right a.data_type_size ws vs Sized-behind);
          count = omega (arith, total, h.count, h.fits, capacity-le h, length-append us vs);
          exponent = h.exponent;
          power = h.power;
          limit = h.limit;
          room = omega (
            arith,
            ap (λ (t : ℕ). t * a.data_type_size) total,
            ap (λ (t : ℕ). t * a.data_type_size) (length-append us vs),
            h.room,
            size,
          );
          fits = omega (arith, total, length-append us vs, h.fits);
          some_byte = h.some_byte;
          few_bytes = h.few_bytes;
        },
        (refl, refl),
      )

  position_in : leb (add64 (length us) (length ws)) a.size ≡ true
  position_in = le→leb _ a.size (omega (arith, past, total, h.count))

  -- dyn_shift_remove in MODE_ERASE.
  pub shift_remove-erase :
      (dst : Bool)
      → 0 < length ws
      → (a' : DynArray) × (shift_remove (some a) (length us) (length ws) erase dst
          ≡ ok (record {
            done = true;
            arr = some a';
            destructed = if a.destructor then ws else [];
            extracted = none;
          }))
        × Holds a' (us ++ vs)
        × SameKind a a'
  unfolding shift_remove erase_objects
  shift_remove-erase dst some_gone =
      let (a', closed, holds, same) = close_gap_lem in
      (a', rw (asked, filled, position_in, gone, closed), holds, same)
    where
      asked : (length ws == 0) ≡ false
      asked = ne→== (length ws) 0 (λ e. omega arith)

      filled : (a.size == 0) ≡ false
      filled = ne→== a.size 0 (λ e. omega (arith, h.count, total))

      gone :
          (if a.destructor
            then destruct_objects (length ws) (position_of a (length us)) a
            else ok [])
          ≡ ok (if a.destructor then ws else [])
      gone = branch_ok a.destructor [] (
          destruct_objects-append a (concat us) ws (concat vs ++ h.slack)
            (position_of a (length us)) buffer (Sized-left a.data_type_size ws vs Sized-behind)
            start)

  -- dyn_shift_remove in MODE_EXTRACT with a destination.
  pub shift_remove-extract :
      0 < length ws
      → shift_remove (some a) (length us) (length ws) extract true
        ≡ ok (record { done = true; arr = some a; destructed = []; extracted = some (concat ws) })
  unfolding shift_remove extract_objects
  shift_remove-extract some_gone = rw (asked, filled, position_in, copied)
    where
      asked : (length ws == 0) ≡ false
      asked = ne→== (length ws) 0 (λ e. omega arith)

      filled : (a.size == 0) ≡ false
      filled = ne→== a.size 0 (λ e. omega (arith, h.count, total))

      copied :
          read_bytes (position_of a (length us)) (mul64 a.data_type_size (length ws)) a.array
          ≡ ok (concat ws)
      copied =
          ap (read_bytes _ _) buffer
          ∙ read_bytes-append (concat us) (concat ws) (concat vs ++ h.slack) _ _ start
              (size_n_elems-eq h (length ws) (omega (arith, total, h.fits)) ∙ sym going)
