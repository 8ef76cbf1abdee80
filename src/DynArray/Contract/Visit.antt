-- ===== src/DynArray/Contract/Visit.antt =====
-- dyn_array_for_each against a walk over the list of objects.
use lib_msvl.Base.{
  ℕ, suc, ◌+◌, ◌≡◌, refl, ap, sym, ◌∙◌, true, some, List, [], ◌∷◌, ◌++◌, append_assoc, arith,
  length, length-append, ok,
}
use lib_msvl.Machine.Memory.{Bytes, read_bytes, memcpy, read_bytes-append, memcpy-append}
use lib_msvl.DynArray.Layout.{DynArray}
use lib_msvl.DynArray.Holds.{Holds, concat, Sized}
use lib_msvl.DynArray.Growth.{SameKind}
use lib_msvl.DynArray.Ordered.{Visitor, visit, for_each}

module _ {S : Type 0} (func : Visitor S)
    (keeps : (x : Bytes) (s : S) → length (func x s).0 ≡ length x) where
  -- the objects from first to last, and `arg` after each
  pub walk : List Bytes → S → List Bytes × S
  walk [] s = ([], s)
  walk (x ∷ xs) s = let rest = walk xs (func x s).1 in ((func x s).0 ∷ rest.0, rest.1)

  walk-Sized : (d : ℕ) (xs : List Bytes) (s : S) → Sized d xs → Sized d (walk xs s).0
  unfolding walk
  walk-Sized d [] s h = tt
  walk-Sized d (x ∷ xs) s h = (keeps x s ∙ h.0, walk-Sized d xs (func x s).1 h.1)

  length-walk : (xs : List Bytes) (s : S) → length (walk xs s).0 ≡ length xs
  unfolding walk
  length-walk [] s = refl
  length-walk (x ∷ xs) s = ap suc (length-walk xs (func x s).1)

  visit-walk :
      (a : DynArray) (front : Bytes) (ws : List Bytes) (back : Bytes) (pos : ℕ) (s : S)
      → a.array ≡ front ++ (concat ws ++ back)
      → Sized a.data_type_size ws
      → pos ≡ length front
      → visit func (length ws) pos a s
        ≡ ok (record a { array = front ++ (concat (walk ws s).0 ++ back) }, (walk ws s).1)
  unfolding visit walk
  visit-walk a front [] back pos s e sized p = ap (λ m. ok (record a { array = m }, s)) e
  visit-walk a front (w ∷ ws) back pos s e sized p =
      rw (seen, written)
        (visit-walk (record a { array = front ++ (new ++ (concat ws ++ back)) }) (front ++ new) ws
            back (pos + a.data_type_size) (func w s).1
            (sym (append_assoc front new (concat ws ++ back))) sized.1
            (omega (arith, length-append front new, keeps w s, sized.0, p))
          ∙ ap (λ m. ok (record a { array = m }, (walk ws (func w s).1).1)) regroup)
    where
      new : Bytes
      new = (func w s).0

      e' : a.array ≡ front ++ (w ++ (concat ws ++ back))
      e' = e ∙ ap (λ t. front ++ t) (append_assoc w (concat ws) back)

      seen : read_bytes pos a.data_type_size a.array ≡ ok w
      seen =
          ap (read_bytes pos a.data_type_size) e'
          ∙ read_bytes-append front w (concat ws ++ back) pos a.data_type_size p (sym sized.0)

      written : memcpy pos (func w s).0 a.array ≡ ok (front ++ (new ++ (concat ws ++ back)))
      written =
          ap (memcpy pos (func w s).0) e'
          ∙ memcpy-append front w (concat ws ++ back) (func w s).0 pos p (keeps w s)

      left : Bytes
      left = concat (walk ws (func w s).1).0

      regroup : (front ++ new) ++ (left ++ back) ≡ front ++ ((new ++ left) ++ back)
      regroup =
          append_assoc front new (left ++ back)
          ∙ ap (λ t. front ++ t) (sym (append_assoc new left back))

  -- dyn_array_for_each of a visitor that keeps the size of an object visits the objects from first
  -- to last, each once, handing on the argument, and the array holds what the visitor has made of
  -- them.
  pub for_each-walk :
      {a : DynArray} {xs : List Bytes}
      → Holds a xs
      → (s : S)
      → (a' : DynArray) × (for_each (some a) (some func) s ≡ ok (true, some a', (walk xs s).1))
        × Holds a' (walk xs s).0
        × SameKind a a'
  unfolding for_each
  for_each-walk {a} {xs} h s = (
    record a { array = concat (walk xs s).0 ++ h.slack },
    rw (
        ap (λ k. visit func k 0 a s) h.count
        ∙ visit-walk a [] xs h.slack 0 s h.layout h.sized refl),
    record {
      slack = h.slack;
      layout = refl;
      sized = walk-Sized a.data_type_size xs s h.sized;
      count = h.count ∙ sym (length-walk xs s);
      exponent = h.exponent;
      power = h.power;
      limit = h.limit;
      room = rw (length-walk xs s) h.room;
      fits = rw (length-walk xs s) h.fits;
      some_byte = h.some_byte;
      few_bytes = h.few_bytes;
    },
    (refl, refl),
  )
