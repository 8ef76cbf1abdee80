-- ===== src/Predecessor/Ends.antt =====
-- What follows the loops of isCorrectAndExit in function.cpp leaves the node its thread and class.
use lib_msvl.Base.{ℕ, ◌+◌, ◌≡◌, refl, Bool, true, false, ◌==◌, if◌then◌else◌}
use lib_msvl.Node.Store.{len_code}
use lib_msvl.Predecessor.Tree.{ThreadNode, ThreadTree, tree, ThreadTrees, size}
use lib_msvl.Predecessor.Check.{Scan, and_node_end, pal_node_end, prj_node_end}

-- a tree with the children `ts` whose node differs from `n` neither in thread nor in class
abbrev pub IsAt : ThreadNode → ThreadTrees → ThreadTree → Type 0
IsAt n ts t = (m : ThreadNode) × (tree m ts ≡ t) × (m.thread ≡ n.thread) × (m.type ≡ n.type)

if-IsAt :
    (n : ThreadNode) (ts : ThreadTrees) (b : Bool) (x y : Bool × ThreadTree)
    → IsAt n ts x.1
    → IsAt n ts y.1
    → IsAt n ts (if b then x else y).1
if-IsAt n ts true x y h h' = h
if-IsAt n ts false x y h h' = h'

pub and_node_end-IsAt :
    (n : ThreadNode) (all : ℕ) (s : Scan) → IsAt n s.kept (and_node_end n all s).1
unfolding and_node_end
and_node_end-IsAt n all s =
    if-IsAt n s.kept _ _ _ (_, refl, refl, refl)
      (if-IsAt n s.kept (s.empty_num + s.none_num == all) _ _ (_, refl, refl, refl)
        (_, refl, refl, refl))

pub pal_node_end-IsAt :
    (n : ThreadNode) (all : ℕ) (s : Scan) → IsAt n s.kept (pal_node_end n all s).1
unfolding pal_node_end
pal_node_end-IsAt n all s =
    if-IsAt n s.kept (len_code n.len == 1) _ _ (_, refl, refl, refl)
      (if-IsAt n s.kept (s.empty_num == all) _ _ (_, refl, refl, refl) (_, refl, refl, refl))

pub prj_node_end-IsAt :
    (n : ThreadNode) (ts : ThreadTrees) (num : ℕ) → IsAt n ts (prj_node_end n ts num).1
unfolding prj_node_end
prj_node_end-IsAt n ts num =
    if-IsAt n ts (len_code n.len == 1) _ _ (_, refl, refl, refl)
      (if-IsAt n ts (num == size ts) _ _ (_, refl, refl, refl) (_, refl, refl, refl))
