-- ===== src/Node/Verdict/Pal.antt =====
-- pal_node_is_correct_and_exit of node.c for a statement whose children are all leaves.
use lib_msvl.Base.{
  ℕ, zero, suc, ◌+◌, ◌≡◌, ◌≢◌, refl, sym, ap, ◌∙◌, Bool, true, false, not, ◌||◌, ◌&&◌, Bool-cases,
  inl, inr, Option, none, some, List, [], ◌∷◌, length, ne→==, eq→==, ◌==◌, if◌then◌else◌, arith,
  Run, ok, fault,
}
use lib_msvl.Base
use lib_msvl.Node.Store.{
  empty, leaf_type, Childs, Node, Store, M, pure, len_code, same_type, bind-ok, bind-fault,
  load-some, ◌>>=◌, ◌>>◌,
}
use lib_msvl.Node.Fields.{set_len, get_len, get_type-some}
use lib_msvl.Node.Children.{slots_of}
use lib_msvl.Node.Check.{pal_loop, pal_is_correct_and_exit, is_correct_and_exit}
use lib_msvl.Node.Verdict.Leaves.{Leaves, is_empty, any, finished, check_leaf}

module _ (kill : ℕ → ℕ) where
  pal_loop-Leaves :
      (depth this : ℕ) (s : Store) (ps : List ℕ) (ms : List Node)
      → Leaves s ps ms
      → pal_loop kill (is_correct_and_exit kill (suc depth)) this ps s
        ≡ (if any (finished kill) ms then fault else ok (tt, s))
  unfolding Leaves pal_loop
  pal_loop-Leaves depth this s [] [] h = refl
  pal_loop-Leaves depth this s [] (m ∷ ms) h = absurd cc
  pal_loop-Leaves depth this s (p ∷ ps) [] h = absurd cc
  pal_loop-Leaves depth this s (p ∷ ps) (m ∷ ms) h =
      bind-ok _ (check_leaf kill depth s p m h.0 h.1 h.2)
      ∙ bind-ok _ (get_type-some s p h.1)
      ∙ ap
          (λ t.
            (if finished kill m && same_type t leaf_type
                then (λ s'. fault)
                else pal_loop kill (is_correct_and_exit kill (suc depth)) this ps)
              s)
          h.2
      ∙ elim (Bool-cases (finished kill m)) [
        | inl e ↦ rw e refl
        | inr e ↦ rw e (pal_loop-Leaves depth this s ps ms h.3)
      ]

  abbrev whole_pal : ℕ → ℕ → List ℕ → M Bool
  whole_pal depth this slots = if length slots == 0 then (λ s. fault) else (do
    pal_loop kill (is_correct_and_exit kill (suc depth)) this slots
    len ← get_len this
    (if len_code len == 1
        then pure true
        else if 0 == length slots
        then (do set_len empty this; pure true)
        else pure false))

  pal_end :
      (this size : ℕ) (s : Store) (n : Node)
      → s this ≡ some n
      → Base.◌>>=◌ (get_len this s) (λ q.
        (if len_code q.0 == 1
            then pure true
            else if 0 == suc size
            then (do set_len empty this; pure true)
            else pure false)
          q.1)
        ≡ ok (is_empty n, s)
  unfolding get_len
  pal_end this size s n at_this =
      bind-ok _ (bind-ok _ (load-some s this at_this)) ∙ elim (Bool-cases (is_empty n)) [
        | inl e ↦ rw e refl
        | inr e ↦ rw (e, ne→== 0 (suc size) (λ z. omega arith)) refl
      ]

  whole_pal-Leaves :
      (depth this : ℕ) (s : Store) (n : Node) (ps : List ℕ) (ms : List Node)
      → s this ≡ some n
      → ps ≢ []
      → Leaves s ps ms
      → whole_pal depth this ps s ≡ (if any (finished kill) ms then fault else ok (is_empty n, s))
  whole_pal-Leaves depth this s n [] ms at_this nonempty leaves = absurd (nonempty refl)
  whole_pal-Leaves depth this s n (p ∷ ps) ms at_this nonempty leaves =
      rw (ne→== (suc (length ps)) 0 (λ z. omega arith))
        (elim (Bool-cases (any (finished kill) ms)) [
          | inl e ↦
              bind-fault _ (looped ∙ ap (λ b. if b then fault else ok (tt, s)) e)
              ∙ sym (ap (λ b. if b then fault else ok (is_empty n, s)) e)
          | inr e ↦
              bind-ok _ (looped ∙ ap (λ b. if b then fault else ok (tt, s)) e)
              ∙ pal_end this (length ps) s n at_this
              ∙ sym (ap (λ b. if b then fault else ok (is_empty n, s)) e)
        ])
    where
      looped :
          pal_loop kill (is_correct_and_exit kill (suc depth)) this (p ∷ ps) s
          ≡ (if any (finished kill) ms then fault else ok (tt, s))
      looped = pal_loop-Leaves depth this s (p ∷ ps) ms leaves

  -- pal_node_is_correct_and_exit of a statement with at least one child, all of them leaves: if a
  -- leaf has finished, by the end of its thread or a length that is not MORE, its slot is erased
  -- after it has been freed, which is undefined behaviour; otherwise it returns whether the
  -- statement's own length is EMPTY, and changes nothing.
  pub pal-Leaves :
      (depth this : ℕ) (s : Store) (n : Node) (c : Childs) (ms : List Node)
      → s this ≡ some n
      → n.childs ≡ some c
      → c.slots ≢ []
      → Leaves s c.slots ms
      → pal_is_correct_and_exit kill (is_correct_and_exit kill (suc depth)) this s
        ≡ (if any (finished kill) ms then fault else ok (is_empty n, s))
  unfolding pal_is_correct_and_exit
  pal-Leaves depth this s n c ms at_this has nonempty leaves =
      bind-ok _ (load-some s this at_this)
      ∙ ap (λ o. whole_pal depth this (slots_of o) s) has
      ∙ whole_pal-Leaves depth this s n c.slots ms at_this nonempty leaves
