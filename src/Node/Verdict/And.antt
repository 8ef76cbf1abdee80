-- ===== src/Node/Verdict/And.antt =====
-- and_node_is_correct_and_exit of node.c for a statement whose children are all leaves.
use lib_msvl.Base.{
  Run, ℕ, suc, ◌+◌, ◌≡◌, ◌≢◌, refl, sym, ap, ◌∙◌, Bool, true, false, not, ◌||◌, ◌&&◌, Bool-cases,
  inl, inr, some, List, [], ◌∷◌, length, ne→==, ◌==◌, if◌then◌else◌, arith, ok, fault,
}
use lib_msvl.Node.Store.{
  NodeLength, more, empty, none_len, NodeType, leaf_type, Childs, Node, Store, M, pure, modify,
  update, len_code, same_type, bind-ok, bind-fault, load-some, modify-some, ◌>>=◌, ◌>>◌,
}
use lib_msvl.Node.Fields.{set_len}
use lib_msvl.Node.Children.{slots_of}
use lib_msvl.Node.Check.{
  thread_exited, and_loop, and_verdict, and_is_correct_and_exit, is_correct_and_exit,
}
use lib_msvl.Node.Verdict.Leaves.{
  Leaves, is_empty, is_none, any, count, length-Leaves, finished, check_leaf,
}

and-false : (b : Bool) → (b && false) ≡ false
and-false true = refl
and-false false = refl

or-true : (b : Bool) → (b || true) ≡ true
or-true true = refl
or-true false = refl

-- one round of the loop of and_node_is_correct_and_exit, behind the check of the child
abbrev round : Bool → NodeLength → NodeType → M (Unit {0}) → (ℕ → ℕ → M (ℕ × ℕ)) → ℕ → ℕ → M (ℕ × ℕ)
round exited l t mark next en nn =
    (if len_code l == 1 && same_type t leaf_type then mark else pure tt)
    >> (if exited && len_code l == 1
        then (λ s. fault)
        else next (if len_code l == 1 && same_type t leaf_type then en + 1 else en) (
            if len_code l == 1 && same_type t leaf_type
            then nn
            else if len_code l == 2
            then nn + 1
            else nn))

round-decided :
    (exited : Bool) (l : NodeLength) (mark : M (Unit {0})) (next : ℕ → ℕ → M (ℕ × ℕ)) (en nn : ℕ)
    (s : Store)
    → (len_code l == 1) ≡ false
    → round exited l leaf_type mark next en nn s
      ≡ next en (if len_code l == 2 then nn + 1 else nn) s
round-decided exited more mark next en nn s h = rw (and-false exited) refl
round-decided exited none_len mark next en nn s h = rw (and-false exited) refl
round-decided exited empty mark next en nn s h = absurd cc

round-empty :
    (exited : Bool) (l : NodeLength) (mark : M (Unit {0})) (next : ℕ → ℕ → M (ℕ × ℕ)) (en nn : ℕ)
    (s s' : Store)
    → (len_code l == 1) ≡ true
    → exited ≡ true
    → mark s ≡ ok (tt, s')
    → round exited l leaf_type mark next en nn s ≡ fault
round-empty exited more mark next en nn s s' h e m = absurd cc
round-empty exited none_len mark next en nn s s' h e m = absurd cc
round-empty exited empty mark next en nn s s' h e m = rw e (bind-ok _ m)

empty-decided :
    (b : Bool) (l : NodeLength) → (len_code l == 1) ≡ true → (b || not (len_code l == 0)) ≡ true
empty-decided b more h = absurd cc
empty-decided b none_len h = or-true b
empty-decided b empty h = or-true b

or-none : (a b : Bool) → (a || b) ≡ false → (a ≡ false) × (b ≡ false)
or-none false b h = (refl, h)
or-none true b h = absurd cc

add-if : (b : Bool) (nn k : ℕ) → (if b then nn + 1 else nn) + k ≡ nn + (if b then k + 1 else k)
add-if true nn k = omega arith
add-if false nn k = refl

same_test : (k : ℕ) {a b : ℕ} → a ≡ b → ((0 + k) == a) ≡ (k == b)
same_test k e = rw e (ap (λ j. j == _) (omega arith))

module _ (kill : ℕ → ℕ) where
  module _ (depth this : ℕ) where
    abbrev mark : M (Unit {0})
    mark = modify (λ m. record m { has_empty = true }) this

    abbrev loop : List ℕ → ℕ → ℕ → M (ℕ × ℕ)
    loop = and_loop kill (is_correct_and_exit kill (suc depth)) this

    and_loop-round :
        (s : Store) (p : ℕ) (ps : List ℕ) (m : Node) (en nn : ℕ)
        → p ≢ 0
        → s p ≡ some m
        → m.type ≡ leaf_type
        → loop (p ∷ ps) en nn s ≡ round (finished kill m) m.len leaf_type mark (loop ps) en nn s
    unfolding and_loop
    and_loop-round s p ps m en nn h e t =
        bind-ok _ (check_leaf kill depth s p m h e t)
        ∙ bind-ok _ (load-some s p e)
        ∙ ap (λ k. round (finished kill m) m.len k mark (loop ps) en nn s) t

    and_loop-decided :
        (s : Store) (ps : List ℕ) (ms : List Node) (en nn : ℕ)
        → Leaves s ps ms
        → any is_empty ms ≡ false
        → loop ps en nn s ≡ ok ((en, nn + count is_none ms), s)
    unfolding Leaves and_loop
    and_loop-decided s [] [] en nn h a = ap (λ k. ok ((en, k), s)) (omega arith)
    and_loop-decided s [] (m ∷ ms) en nn h a = absurd cc
    and_loop-decided s (p ∷ ps) [] en nn h a = absurd cc
    and_loop-decided s (p ∷ ps) (m ∷ ms) en nn h a =
        let (here, behind) = or-none (is_empty m) (any is_empty ms) a in
        and_loop-round s p ps m en nn h.0 h.1 h.2
        ∙ round-decided (finished kill m) m.len mark (loop ps) en nn s here
        ∙ and_loop-decided s ps ms en (if is_none m then nn + 1 else nn) h.3 behind
        ∙ ap (λ k. ok ((en, k), s)) (add-if (is_none m) nn (count is_none ms))

  verdict-fresh :
      (this size en nn : ℕ) (s : Store) (n : Node)
      → s this ≡ some n
      → n.has_empty ≡ false
      → and_verdict kill this size en nn s
        ≡ ok
            (false, update this (some (record n { len = if nn == size then none_len else more })) s)
  unfolding and_verdict set_len
  verdict-fresh this size en nn s n at_this fresh =
      bind-ok _ (load-some s this at_this)
      ∙ ap
          (λ b.
            (if not b
                then (do set_len (if nn == size then none_len else more) this; pure false)
                else if en + nn == size
                then (do set_len empty this; pure true)
                else pure false)
              s)
          fresh
      ∙ bind-ok _ (
          modify-some s this (λ m. record m { len = if nn == size then none_len else more })
            at_this)

  abbrev whole : ℕ → ℕ → List ℕ → M Bool
  whole depth this slots = if length slots == 0 then (λ s. fault) else (do
    (en, nn) ← and_loop kill (is_correct_and_exit kill (suc depth)) this slots 0 0
    and_verdict kill this (length slots) en nn)

  whole-decided :
      (depth this : ℕ) (s : Store) (n : Node) (ps : List ℕ) (ms : List Node)
      → s this ≡ some n
      → n.has_empty ≡ false
      → Leaves s ps ms
      → ms ≢ []
      → any is_empty ms ≡ false
      → whole depth this ps s
        ≡ ok (
          false,
          update this
              (some (record n { len = if count is_none ms == length ms then none_len else more }))
              s,
        )
  unfolding Leaves
  whole-decided depth this s n [] [] at_this fresh leaves nonempty none_empty =
      absurd (nonempty refl)
  whole-decided depth this s n [] (m ∷ ms) at_this fresh leaves nonempty none_empty = absurd cc
  whole-decided depth this s n (p ∷ ps) [] at_this fresh leaves nonempty none_empty = absurd cc
  whole-decided depth this s n (p ∷ ps) (m ∷ ms) at_this fresh leaves nonempty none_empty =
      rw (ne→== (suc (length ps)) 0 (λ z. omega arith)) (
        bind-ok _ (and_loop-decided depth this s (p ∷ ps) (m ∷ ms) 0 0 leaves none_empty)
        ∙ verdict-fresh this (length (p ∷ ps)) 0 (0 + count is_none (m ∷ ms)) s n at_this fresh
        ∙ ap
            (λ b.
              ok (false, update this (some (record n { len = if b then none_len else more })) s))
            (same_test (count is_none (m ∷ ms)) (length-Leaves s (p ∷ ps) (m ∷ ms) leaves)))

  and-decided :
      (depth this : ℕ) (s : Store) (n : Node) (c : Childs) (ms : List Node)
      → s this ≡ some n
      → n.childs ≡ some c
      → n.has_empty ≡ false
      → Leaves s c.slots ms
      → ms ≢ []
      → any is_empty ms ≡ false
      → and_is_correct_and_exit kill (is_correct_and_exit kill (suc depth)) this s
        ≡ ok (
          false,
          update this
              (some (record n { len = if count is_none ms == length ms then none_len else more }))
              s,
        )
  unfolding and_is_correct_and_exit
  and-decided depth this s n c ms at_this has fresh leaves nonempty none_empty =
      bind-ok _ (load-some s this at_this)
      ∙ ap (λ o. whole depth this (slots_of o) s) has
      ∙ whole-decided depth this s n c.slots ms at_this fresh leaves nonempty none_empty

  and_loop-empty :
      (depth this : ℕ) (s : Store) (n : Node) (ps : List ℕ) (ms : List Node) (en nn : ℕ)
      → s this ≡ some n
      → Leaves s ps ms
      → any is_empty ms ≡ true
      → loop depth this ps en nn s ≡ fault
  unfolding Leaves finished
  and_loop-empty depth this s n [] [] en nn at_this h a = absurd cc
  and_loop-empty depth this s n [] (m ∷ ms) en nn at_this h a = absurd cc
  and_loop-empty depth this s n (p ∷ ps) [] en nn at_this h a = absurd cc
  and_loop-empty depth this s n (p ∷ ps) (m ∷ ms) en nn at_this h a =
      and_loop-round depth this s p ps m en nn h.0 h.1 h.2 ∙ elim (Bool-cases (is_empty m)) [
        | inl e ↦
            round-empty (finished kill m) m.len (mark depth this) (loop depth this ps) en nn s _ e
              (empty-decided (thread_exited kill m.thread) m.len e)
              (modify-some s this (λ k. record k { has_empty = true }) at_this)
        | inr e ↦
            round-decided (finished kill m) m.len (mark depth this) (loop depth this ps) en nn s e
            ∙ and_loop-empty depth this s n ps ms en (if is_none m then nn + 1 else nn) at_this h.3
                (sym (ap (λ b. b || any is_empty ms) e) ∙ a)
      ]

  and-empty_leaf :
      (depth this : ℕ) (s : Store) (n : Node) (c : Childs) (ms : List Node)
      → s this ≡ some n
      → n.childs ≡ some c
      → Leaves s c.slots ms
      → any is_empty ms ≡ true
      → and_is_correct_and_exit kill (is_correct_and_exit kill (suc depth)) this s ≡ fault
  unfolding and_is_correct_and_exit
  and-empty_leaf depth this s n c ms at_this has leaves some_empty =
      bind-ok _ (load-some s this at_this)
      ∙ ap (λ o. whole depth this (slots_of o) s) has
      ∙ elim (Bool-cases (length c.slots == 0)) [
        | inl e ↦ rw e refl
        | inr e ↦
            rw e (
              bind-fault _ (and_loop-empty depth this s n c.slots ms 0 0 at_this leaves some_empty))
      ]

  -- and_node_is_correct_and_exit of a statement with at least one child, all of them leaves, and no
  -- empty child before: if a child has length EMPTY it is undefined behaviour, since the type of
  -- the address LEAF is read; otherwise it returns false, sets the length to NONE if that of every
  -- child is NONE and to MORE if not, and changes nothing else.
  pub and-Leaves :
      (depth this : ℕ) (s : Store) (n : Node) (c : Childs) (ms : List Node)
      → s this ≡ some n
      → n.childs ≡ some c
      → n.has_empty ≡ false
      → Leaves s c.slots ms
      → ms ≢ []
      → and_is_correct_and_exit kill (is_correct_and_exit kill (suc depth)) this s ≡ (
          if any is_empty ms
          then fault
          else ok (
            false,
            update this
                (some (record n { len = if count is_none ms == length ms then none_len else more }))
                s,
          ))
  and-Leaves depth this s n c ms at_this has fresh leaves nonempty =
      elim (Bool-cases (any is_empty ms)) [
        | inl e ↦ and-empty_leaf depth this s n c ms at_this has leaves e ∙ sym (ap verdict e)
        | inr e ↦
            and-decided depth this s n c ms at_this has fresh leaves nonempty e ∙ sym (ap verdict e)
      ]
    where
      verdict : Bool → Run (Bool × Store)
      verdict b =
          if b
          then fault
          else ok (
            false,
            update this
                (some (record n { len = if count is_none ms == length ms then none_len else more }))
                s,
          )
