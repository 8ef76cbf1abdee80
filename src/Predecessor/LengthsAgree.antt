-- ===== src/Predecessor/LengthsAgree.antt =====
-- setAndLen of function.cpp against AndNode::isCorrectAndExit, for a statement whose children are
-- all leaves.
use lib_msvl.Base.{
  ℕ, suc, ◌+◌, ◌≡◌, ◌≢◌, refl, ap, ◌∙◌, Bool, true, false, not, ◌&&◌, ◌||◌, Bool-cases, inl, inr,
  List, [], ◌∷◌, length, ◌==◌, ltb, lt→ltb, if◌then◌else◌, Run, ok, ne→==, some, deref, ◌>>=◌,
  arith,
}
use lib_msvl.Node.Store.{empty, none_len, and_type, leaf_type, same_type, bind-ok}
use lib_msvl.Predecessor.Tree.{ThreadNode}
use lib_msvl.Predecessor.Leaves.{
  any, all, count, count-all, is_empty, is_none, is_decided, decided-count,
}
use lib_msvl.Predecessor.AndLeaves.{any_ended}
use lib_msvl.Predecessor.Objects.{Object, Heap, put}
use lib_msvl.Predecessor.Lengths.{
  count_lengths, AndRound, go_on, becomes, stops, and_round, after_round, set_and_len,
}
use lib_msvl.Predecessor.LengthCounts.{Leaves, length-Leaves, count_lengths_lem}

some-counted : (ns : List ThreadNode) → ltb 0 (count is_empty ns) ≡ any is_empty ns
some-counted [] = refl
some-counted (n ∷ ns) = elim (Bool-cases (is_empty n)) [
  | inl e ↦ rw e (lt→ltb 0 (count is_empty ns + 1) (omega arith))
  | inr e ↦ rw e (some-counted ns)
]

both-false : (a b : Bool) → (a || b) ≡ false → (a ≡ false) × (b ≡ false)
both-false false b h = (refl, h)
both-false true b h = absurd cc

count-none : (ns : List ThreadNode) → any is_empty ns ≡ false → count is_empty ns ≡ 0
count-none [] h = refl
count-none (n ∷ ns) h =
    let (here, behind) = both-false (is_empty n) (any is_empty ns) h in
    rw here (count-none ns behind)

none-counted :
    (ns : List ThreadNode)
    → any is_empty ns ≡ false
    → all is_none ns ≡ false
    → (count is_empty ns + 0 == length ns) ≡ false
none-counted [] h h' = absurd cc
none-counted (n ∷ ns) h h' =
    ne→== (count is_empty (n ∷ ns) + 0) (suc (length ns))
      (λ z. omega (arith, count-none (n ∷ ns) h))

or-else : (a b : Bool) → (if a then true else b) ≡ (b || a)
or-else true true = refl
or-else true false = refl
or-else false true = refl
or-else false false = refl

-- the two tests of a round, where `e` says that a child has ended
round_tests :
    {A : Type 0} (x y z : A) (e a d : Bool) (emps nones size : ℕ)
    → (emps + nones == size) ≡ d
    → (e ≡ false → a ≡ false → (emps + 0 == size) ≡ false)
    → (if a && not e then x else if emps + (if e then nones else 0) == size then y else z)
      ≡ (if e then (if d then y else z) else if a then x else z)
round_tests x y z true true d emps nones size t u = ap (λ b. if b then y else z) t
round_tests x y z true false d emps nones size t u = ap (λ b. if b then y else z) t
round_tests x y z false true d emps nones size t u = refl
round_tests x y z false false d emps nones size t u = ap (λ b. if b then y else z) (u refl refl)

-- what a round makes of the statement, in the words of the check
abbrev and_rounded : ThreadNode → List ThreadNode → AndRound
and_rounded n ns =
    if any_ended n ns
    then (if all is_decided ns
        then becomes (record n { has_empty = any_ended n ns; len = empty; new_type = leaf_type })
        else stops (record n { has_empty = any_ended n ns }))
    else if all is_none ns
    then go_on (record n { has_empty = any_ended n ns; len = none_len })
    else stops (record n { has_empty = any_ended n ns })

and_round_lem :
    (n : ThreadNode) (ns : List ThreadNode)
    → and_round n (length ns) (count is_none ns) (count is_empty ns) ≡ and_rounded n ns
unfolding and_round
and_round_lem n ns =
    rw (some-counted ns, or-else (any is_empty ns) n.has_empty, count-all is_none ns)
      (round_tests (go_on (record n { has_empty = any_ended n ns; len = none_len }))
        (becomes (record n { has_empty = any_ended n ns; len = empty; new_type = leaf_type }))
        (stops (record n { has_empty = any_ended n ns })) (any_ended n ns) (all is_none ns)
        (all is_decided ns) (count is_empty ns) (count is_none ns) (length ns)
        (ap (λ k. k == length ns) (decided-count ns) ∙ count-all is_decided ns)
        (λ e a. none-counted ns (both-false n.has_empty (any is_empty ns) e).1 a))

-- what setAndLen does of it
abbrev pub and_length_set : ℕ → ℕ → Object → List ThreadNode → Heap → Run Heap
and_length_set depth p o ns h =
    if any_ended o.node ns
    then (if all is_decided ns
        then ok
            (record (put p
              (record o.node { has_empty = any_ended o.node ns; len = empty; new_type = leaf_type })
              o h) { changed_node = p })
        else ok (put p (record o.node { has_empty = any_ended o.node ns }) o h))
    else if all is_none ns
    then set_and_len depth o.father
        (put p (record o.node { has_empty = any_ended o.node ns; len = none_len }) o h)
    else ok (put p (record o.node { has_empty = any_ended o.node ns }) o h)

through_tests :
    {A B : Type 0} (f : A → B) (e d a : Bool) (x y z : A)
    → f (if e then (if d then x else y) else if a then z else y)
      ≡ (if e then (if d then f x else f y) else if a then f z else f y)
through_tests f true true a x y z = refl
through_tests f true false a x y z = refl
through_tests f false d true x y z = refl
through_tests f false d false x y z = refl

after_rounded :
    (depth p : ℕ) (o : Object) (ns : List ThreadNode) (h : Heap)
    → after_round (set_and_len depth o.father) p o h (and_rounded o.node ns)
      ≡ and_length_set depth p o ns h
unfolding after_round
after_rounded depth p o ns h =
    through_tests (after_round (set_and_len depth o.father) p o h) (any_ended o.node ns)
      (all is_decided ns) (all is_none ns) _ _ _

rounded_here :
    (h : Heap) (o : Object) (ns : List ThreadNode)
    → Leaves h o.childs ns
    → and_round o.node (length o.childs) (0 + count is_none ns) (0 + count is_empty ns)
      ≡ and_rounded o.node ns
rounded_here h o ns leaves =
    ap (λ k. and_round o.node k (0 + count is_none ns) (0 + count is_empty ns))
      (length-Leaves h o.childs ns leaves)
    ∙ ap (λ k. and_round o.node (length ns) k (0 + count is_empty ns)) (omega arith)
    ∙ ap (λ k. and_round o.node (length ns) (count is_none ns) k) (omega arith)
    ∙ and_round_lem o.node ns

-- setAndLen of an AND whose children are all leaves: where a child has ended with length EMPTY, now
-- or before, and no child has length MORE, it sets the length to EMPTY, lets the statement become a
-- LEAF and notes it in changedNode; where none has ended and all have length NONE it sets that
-- length and goes on at the father; otherwise it only notes in hasEmpty whether a child has ended.
pub set_and_len-Leaves :
    (depth p : ℕ) (h : Heap) (o : Object) (ns : List ThreadNode)
    → p ≢ 0
    → h.object p ≡ some o
    → o.node.type ≡ and_type
    → Leaves h o.childs ns
    → set_and_len (suc depth) p h ≡ and_length_set depth p o ns h
unfolding set_and_len
set_and_len-Leaves depth p h o ns valid here is_and leaves = rw (ne→== p 0 valid) (
    bind-ok _ (ap deref here)
    ∙ ap
        (λ t.
          (if not (same_type t and_type) then ok h else (do
            (nones, emps) ← count_lengths h o.childs 0 0
            after_round (set_and_len depth o.father) p o h
                (and_round o.node (length o.childs) nones emps))))
        is_and
    ∙ bind-ok _ (count_lengths_lem h o.childs ns 0 0 leaves)
    ∙ ap (λ r. after_round (set_and_len depth o.father) p o h r) (rounded_here h o ns leaves)
    ∙ after_rounded depth p o ns h)
