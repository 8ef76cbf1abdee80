-- ===== src/Predecessor/LengthCounts.antt =====
-- The counts of the functions on lengths of function.cpp, over children that are all leaves.
use lib_msvl.Base.{
  ℕ, suc, ◌+◌, ◌≡◌, refl, sym, ap, subst, ◌∙◌, true, false, ◌&&◌, List, [], ◌∷◌, length, ◌==◌,
  if◌then◌else◌, Run, ok, some, deref, arith,
}
use lib_msvl.Node.Store.{leaf_type, len_code, bind-ok}
use lib_msvl.Predecessor.Tree.{ThreadNode}
use lib_msvl.Predecessor.Check.{is_empty_leaf}
use lib_msvl.Predecessor.Leaves.{count, is_empty, is_none, len-cases}
use lib_msvl.Predecessor.Objects.{Object, Heap}
use lib_msvl.Predecessor.Lengths.{count_lengths}

-- The objects at the addresses are leaves with what `ns` say.
unfoldable pub Leaves : Heap → List ℕ → List ThreadNode → Type 0
Leaves h [] [] = Unit
Leaves h [] (n ∷ ns) = true ≡ false
Leaves h (p ∷ ps) [] = true ≡ false
Leaves h (p ∷ ps) (n ∷ ns) =
    ((o : Object) × (h.object p ≡ some o) × (o.node ≡ record n { type = leaf_type }))
    × Leaves h ps ns

pub length-Leaves :
    (h : Heap) (ps : List ℕ) (ns : List ThreadNode) → Leaves h ps ns → length ps ≡ length ns
unfolding Leaves
length-Leaves h [] [] leaves = refl
length-Leaves h [] (n ∷ ns) leaves = absurd cc
length-Leaves h (p ∷ ps) [] leaves = absurd cc
length-Leaves h (p ∷ ps) (n ∷ ns) leaves = ap suc (length-Leaves h ps ns leaves.1)

one_length :
    (n : ThreadNode) (a b c d : ℕ) (next : ℕ → ℕ → Run (ℕ × ℕ))
    → ((a' b' : ℕ) → next a' b' ≡ ok (a' + c, b' + d))
    → (if len_code n.len == 2
        then next (a + 1) b
        else if is_empty_leaf (record n { type = leaf_type })
        then next a (b + 1)
        else next a b)
      ≡ ok (a + (if is_none n then c + 1 else c), b + (if is_empty n then d + 1 else d))
one_length n a b c d next each =
    len-cases
      (λ l.
        (if len_code l == 2
          then next (a + 1) b
          else if len_code l == 1 && true
          then next a (b + 1)
          else next a b)
        ≡ ok (
          a + (if len_code l == 2 then c + 1 else c),
          b + (if len_code l == 1 then d + 1 else d),
        ))
      (each a b) (each a (b + 1) ∙ ap (λ k. ok (a + c, k)) (omega arith))
      (each (a + 1) b ∙ ap (λ k. ok (k, b + d)) (omega arith)) n.len

pub count_lengths_lem :
    (h : Heap) (ps : List ℕ) (ns : List ThreadNode) (a b : ℕ)
    → Leaves h ps ns
    → count_lengths h ps a b ≡ ok (a + count is_none ns, b + count is_empty ns)
unfolding Leaves count_lengths
count_lengths_lem h [] [] a b leaves =
    ap (λ r. ok r) (ap (λ k. (k, b)) (omega arith) ∙ ap (λ k. (a + 0, k)) (omega arith))
count_lengths_lem h [] (n ∷ ns) a b leaves = absurd cc
count_lengths_lem h (p ∷ ps) [] a b leaves = absurd cc
count_lengths_lem h (p ∷ ps) (n ∷ ns) a b ((o, here, same), leaves) =
    bind-ok _ (ap deref here)
    ∙ subst
        (λ m.
          (if len_code m.len == 2
            then count_lengths h ps (a + 1) b
            else if is_empty_leaf m
            then count_lengths h ps a (b + 1)
            else count_lengths h ps a b)
          ≡ ok (a + count is_none (n ∷ ns), b + count is_empty (n ∷ ns)))
        (sym same)
        (one_length n a b (count is_none ns) (count is_empty ns) (count_lengths h ps)
          (λ a' b'. count_lengths_lem h ps ns a' b' leaves))
