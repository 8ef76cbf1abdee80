-- ===== src/Predecessor/Leaves.antt =====
-- A statement of function.cpp whose children are all leaves: what isCorrectAndExit finds about one
-- leaf, and the counts of a list.
use lib_msvl.Base.{
  ℕ, suc, ◌+◌, ◌≡◌, ◌≤◌, refl, ap, ◌∙◌, Bool, true, false, not, ◌&&◌, ◌||◌, Bool-cases, inl, inr,
  List, [], ◌∷◌, length, ◌==◌, ne→==, if◌then◌else◌, ok, arith,
}
use lib_msvl.Node.Store.{NodeLength, more, empty, none_len, leaf_type, len_code}
use lib_msvl.Predecessor.Tree.{
  ThreadNode, ThreadTree, tree, ThreadTrees, nil, cons, size, Registry, has_exited,
}
use lib_msvl.Predecessor.Check.{leaf_node_check, check_tree, dispatch_check}

same_suc : (a b : ℕ) → (a + 1 == suc b) ≡ (a == b)
same_suc a b = ground arith

module _ {ℓ} {A : Type ℓ} where
  abbrev pub any : (A → Bool) → List A → Bool
  any f [] = false
  any f (x ∷ xs) = f x || any f xs

  abbrev pub all : (A → Bool) → List A → Bool
  all f [] = true
  all f (x ∷ xs) = f x && all f xs

  abbrev pub count : (A → Bool) → List A → ℕ
  count f [] = 0
  count f (x ∷ xs) = if f x then count f xs + 1 else count f xs

  abbrev pub without : (A → Bool) → List A → List A
  without f [] = []
  without f (x ∷ xs) = if f x then without f xs else x ∷ without f xs

  count-le : (f : A → Bool) (xs : List A) → count f xs ≤ length xs
  count-le f [] = omega arith
  count-le f (x ∷ xs) = elim (Bool-cases (f x)) [
    | inl e ↦ rw e (omega (arith, count-le f xs))
    | inr e ↦ rw e (omega (arith, count-le f xs))
  ]

  -- The count is the length exactly if the test holds of every element.
  pub count-all : (f : A → Bool) (xs : List A) → (count f xs == length xs) ≡ all f xs
  count-all f [] = refl
  count-all f (x ∷ xs) = elim (Bool-cases (f x)) [
    | inl e ↦ rw e (same_suc (count f xs) (length xs) ∙ count-all f xs)
    | inr e ↦ rw e (ne→== (count f xs) (suc (length xs)) (λ z. omega (arith, count-le f xs)))
  ]

abbrev pub is_more : ThreadNode → Bool
is_more n = len_code n.len == 0

abbrev pub is_empty : ThreadNode → Bool
is_empty n = len_code n.len == 1

abbrev pub is_none : ThreadNode → Bool
is_none n = len_code n.len == 2

abbrev pub is_decided : ThreadNode → Bool
is_decided n = not (is_more n)

abbrev pub as_leaf : ThreadNode → ThreadTree
as_leaf n = tree (record n { type = leaf_type }) nil

abbrev pub leaves : List ThreadNode → ThreadTrees
leaves [] = nil
leaves (n ∷ ns) = cons (as_leaf n) (leaves ns)

pub size-leaves : (ns : List ThreadNode) → size (leaves ns) ≡ length ns
size-leaves [] = refl
size-leaves (n ∷ ns) = ap suc (size-leaves ns)

pub len-cases : (P : NodeLength → Type 0) → P more → P empty → P none_len → (l : NodeLength) → P l
len-cases P a b c more = a
len-cases P a b c empty = b
len-cases P a b c none_len = c

pub decided-count :
    (ns : List ThreadNode) → count is_empty ns + count is_none ns ≡ count is_decided ns
decided-count [] = omega arith
decided-count (n ∷ ns) =
    len-cases
      (λ l.
        (if len_code l == 1 then count is_empty ns + 1 else count is_empty ns)
          + (if len_code l == 2 then count is_none ns + 1 else count is_none ns)
        ≡ (if not (len_code l == 0) then count is_decided ns + 1 else count is_decided ns))
      (decided-count ns) (omega (arith, decided-count ns)) (omega (arith, decided-count ns)) n.len

decided_ends :
    (b : Bool) (l : NodeLength) → (len_code l == 1) ≡ true → (b || not (len_code l == 0)) ≡ true
decided_ends true l e = refl
decided_ends false more e = absurd cc
decided_ends false empty e = refl
decided_ends false none_len e = absurd cc

module _ (kill : ℕ → ℕ) where
  pub check_leaf :
      (n : ThreadNode) (r : Registry)
      → check_tree kill (as_leaf n) r
        ≡ ok ((leaf_node_check kill (record n { type = leaf_type }), as_leaf n), r)
  unfolding check_tree dispatch_check
  check_leaf n r = refl

  pub empty_leaf-ends : (n : ThreadNode) → is_empty n ≡ true → leaf_node_check kill n ≡ true
  unfolding leaf_node_check
  empty_leaf-ends n e = decided_ends (has_exited kill n) n.len e
