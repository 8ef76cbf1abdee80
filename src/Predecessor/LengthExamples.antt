-- ===== src/Predecessor/LengthExamples.antt =====
-- A statement of function.cpp on three threads, as objects with their links.
use lib_msvl.Base.{
  ℕ, zero, suc, ◌≡◌, ◌<◌, ◌≢◌, refl, ◌⊎◌, subst, true, false, inl, inr, Option, none, some, List,
  [], ◌∷◌, arith,
}
use lib_msvl.Node.Store.{NodeLength, more, empty, none_len, NodeType, and_type, leaf_type}
use lib_msvl.Predecessor.Tree.{ThreadNode}
use lib_msvl.Predecessor.Objects.{Object, Heap}
use lib_msvl.Predecessor.Lengths.{set_node_length, set_and_len}
use lib_msvl.Predecessor.Links.{links, IsLinked, AllObjects, is_in, IsForest, Settles}
use lib_msvl.Predecessor.LengthsReturn.{set_node_length-Settles}
use lib_msvl.Predecessor.LengthCounts.{Leaves}
use lib_msvl.Predecessor.LengthsAgree.{and_length_set, set_and_len-Leaves}

abbrev on_thread : ℕ → NodeType → NodeLength → ThreadNode
on_thread thread type len = record {
  thread = thread;
  type = type;
  new_type = type;
  len = len;
  has_empty = false;
  mutex = 0;
  cond = 0;
  is_init = true;
}

abbrev an_object : ThreadNode → ℕ → List ℕ → Object
an_object node father childs = record {
  node = node;
  father = father;
  childs = childs;
  ext_Q = false;
  has_ext_Q = false;
}

-- an AND at 1 whose children are the leaves at 2 and 3
abbrev objects : NodeLength → NodeLength → ℕ → Option Object
objects l l' zero = none
objects l l' (suc zero) = some (an_object (on_thread 1 and_type more) 0 (2 ∷ 3 ∷ []))
objects l l' (suc (suc zero)) = some (an_object (on_thread 2 leaf_type l) 1 [])
objects l l' (suc (suc (suc zero))) = some (an_object (on_thread 3 leaf_type l') 1 [])
objects l l' (suc (suc (suc (suc p)))) = none

abbrev three : NodeLength → NodeLength → Heap
three l l' = record {
  object = objects l l';
  thread_id_to_node = λ thread. some thread;
  changed_node = 0;
  prj_node = 0;
  exits = λ thread. 0;
  turn = 1;
  manager = 9;
  thread_root = 1;
  path_false = some false;
  keep_childs = [];
  prsnt = [];
  outputs = false;
  state_num = 0;
  calls = [];
}

abbrev its_links : ℕ → Option (ℕ × List ℕ)
its_links p = links (objects more more p)

abbrev depth_of : ℕ → ℕ
depth_of zero = 0
depth_of (suc zero) = 0
depth_of (suc (suc p)) = 1

three-IsLinked : (l l' : NodeLength) → IsLinked its_links (three l l')
three-IsLinked l l' zero = refl
three-IsLinked l l' (suc zero) = refl
three-IsLinked l l' (suc (suc zero)) = refl
three-IsLinked l l' (suc (suc (suc zero))) = refl
three-IsLinked l l' (suc (suc (suc (suc p)))) = refl

same_links :
    (P : ℕ → List ℕ → Type 0) (g f : ℕ) (ds cs : List ℕ)
    → ◌≡◌ {A = Option (ℕ × List ℕ)} (some (g, ds)) (some (f, cs))
    → P g ds
    → P f cs
same_links P g f ds cs e h = subst (λ x. P x.0 x.1) whole h
  where
    whole : ◌≡◌ {A = ℕ × List ℕ} (g, ds) (f, cs)
    whole = cc

-- what IsForest asks of one object
abbrev Stands : ℕ → ℕ → List ℕ → Type 0
Stands p f cs =
    (p ≢ 0)
    × ((f ≡ 0)
        ⊎ ((x : ℕ × List ℕ) × (its_links f ≡ some x)
            × (depth_of f < depth_of p)
            × (is_in p x.1 ≡ true)))
    × AllObjects its_links cs

its_links-IsForest : IsForest depth_of its_links
its_links-IsForest zero f cs e = absurd cc
its_links-IsForest (suc zero) f cs e =
    same_links (Stands 1) 0 f (2 ∷ 3 ∷ []) cs e
      ((λ z. omega arith), inl refl, ((_, refl), ((_, refl), tt)))
its_links-IsForest (suc (suc zero)) f cs e =
    same_links (Stands 2) 1 f [] cs e
      ((λ z. omega arith), inr ((0, 2 ∷ 3 ∷ []), refl, omega arith, refl), tt)
its_links-IsForest (suc (suc (suc zero))) f cs e =
    same_links (Stands 3) 1 f [] cs e
      ((λ z. omega arith), inr ((0, 2 ∷ 3 ∷ []), refl, omega arith, refl), tt)
its_links-IsForest (suc (suc (suc (suc p)))) f cs e = absurd cc

set_node_length-Settles_example :
    Settles its_links (set_node_length 2 3 empty (three none_len more))
set_node_length-Settles_example =
    set_node_length-Settles its_links depth_of its_links-IsForest 2 3 3 1 [] empty
      (three none_len more) (three-IsLinked none_len more) refl refl (omega arith)

three-Leaves :
    (l l' : NodeLength)
    → Leaves (three l l') (2 ∷ 3 ∷ []) (on_thread 2 leaf_type l ∷ on_thread 3 leaf_type l' ∷ [])
unfolding Leaves
three-Leaves l l' = ((_, refl, refl), ((_, refl, refl), tt))

set_and_len-Leaves_example :
    set_and_len 1 1 (three none_len empty)
    ≡ and_length_set 0 1
        (an_object (on_thread 1 and_type more) 0 (2 ∷ 3 ∷ []))
        (on_thread 2 leaf_type none_len ∷ on_thread 3 leaf_type empty ∷ [])
        (three none_len empty)
set_and_len-Leaves_example =
    set_and_len-Leaves 0 1 (three none_len empty)
      (an_object (on_thread 1 and_type more) 0 (2 ∷ 3 ∷ []))
      (on_thread 2 leaf_type none_len ∷ on_thread 3 leaf_type empty ∷ []) (λ z. omega arith) refl
      refl (three-Leaves none_len empty)
