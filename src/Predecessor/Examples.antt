-- ===== src/Predecessor/Examples.antt =====
-- A statement of function.cpp on three threads, run on the theorems of the predecessor.
use lib_msvl.Base.{
  ℕ, ◌+◌, ◌≡◌, refl, Bool, true, false, ◌||◌, none, some, List, [], ◌∷◌, ◌==◌, map, ok, arith,
}
use lib_msvl.Node.Store.{
  NodeLength, more, empty, none_len, NodeType, and_type, leaf_type, Node, Store, update,
}
use lib_msvl.Node.Verdict.Leaves.{Leaves}
use lib_msvl.Node.Check.{and_is_correct_and_exit, is_correct_and_exit}
use lib_msvl.Predecessor.Tree.{
  ThreadTree, tree, nil, cons, Registry, kill_thread, join_thread, has_exited,
}
use lib_msvl.Predecessor.Check.{check_tree}
use lib_msvl.Predecessor.Count.{one, present, occurs, Holds, IsShaped, Gives}
use lib_msvl.Predecessor.Registered.{Checked, check_tree-Registered}
use lib_msvl.Predecessor.Leaves.{as_leaf}
use lib_msvl.Predecessor.AndLeaves.{and_of, and_checked, and_node-Leaves}
use lib_msvl.Predecessor.Ported.{ported, and_node-Ported}

-- every thread is alive
abbrev alive : ℕ → ℕ
alive thread = 0

abbrev on_thread : ℕ → NodeType → NodeLength → Node
on_thread thread type len = record {
  thread = thread;
  father = 0;
  childs = some (record { slots = 2 ∷ 3 ∷ []; spare = 14 });
  type = type;
  new_type = type;
  len = len;
  is_init = true;
  has_empty = false;
  mutex = 0;
  cond = 0;
  ext_Q = false;
  has_ext_Q = false;
  allocated = type;
}

abbrev statement : Node
statement = on_thread 1 and_type more

abbrev two : NodeLength → NodeLength → List Node
two l l' = on_thread 2 leaf_type l ∷ on_thread 3 leaf_type l' ∷ []

abbrev three : Registry
three = record { registered = λ k. k == 1 || (k == 2 || k == 3); calls = [] }

three-present :
    (k : ℕ)
    → one k 1 + (one k 2 + 0 + (one k 3 + 0 + 0)) + 0 ≡ present (k == 1 || (k == 2 || k == 3))
three-present k = ground arith

abbrev statement_of : NodeLength → NodeLength → ThreadTree
statement_of l l' = and_of (ported statement) (map ported (two l l'))

three-Holds : (l l' : NodeLength) → Holds (λ k. occurs k (statement_of l l') + 0) three
unfolding occurs
three-Holds l l' k = three-present k

statement_of-IsShaped : (l l' : NodeLength) → IsShaped (statement_of l l')
unfolding IsShaped
statement_of-IsShaped l l' = (tt, ((tt, tt), ((tt, tt), tt)))

check_tree-Registered_example :
    Gives (Checked alive (λ _. 0)) (check_tree alive (statement_of none_len empty) three)
check_tree-Registered_example =
    check_tree-Registered alive (statement_of none_len empty) (λ _. 0) three
      (statement_of-IsShaped none_len empty) (three-Holds none_len empty)

and_node-Leaves_example :
    Gives
      (λ p r'.
        (p ≡ and_checked (ported statement) (map ported (two none_len empty)))
        × Holds
            (λ k.
              occurs k (and_of (ported statement) (ported (on_thread 2 leaf_type none_len) ∷ []))
              + 0)
            r'
        × (r'.calls ≡ kill_thread 3 ∷ join_thread 3 ∷ []))
      (check_tree alive (statement_of none_len empty) three)
unfolding has_exited
and_node-Leaves_example =
    and_node-Leaves alive (ported statement) (map ported (two none_len empty)) (λ _. 0) three
      (three-Holds none_len empty)

abbrev in_store : NodeLength → NodeLength → Store
in_store l l' = update 1 (some statement) (
    update 2 (some (on_thread 2 leaf_type l))
      (update 3 (some (on_thread 3 leaf_type l')) (λ _. none)))

in_store-Leaves : (l l' : NodeLength) → Leaves (in_store l l') (2 ∷ 3 ∷ []) (two l l')
unfolding Leaves
in_store-Leaves l l' = ((λ e. omega arith), refl, refl, ((λ e. omega arith), refl, refl, tt))

and_node-Ported_example :
    (b : Bool) × (m : Node) × (and_is_correct_and_exit alive
        (is_correct_and_exit alive 1)
        1
        (in_store none_len more)
      ≡ ok (b, update 1 (some m) (in_store none_len more)))
    × Gives
        (λ p _. p ≡ (b, and_of (ported m) (map ported (two none_len more))))
        (check_tree alive (statement_of none_len more) three)
and_node-Ported_example =
    and_node-Ported alive 0 1 (in_store none_len more) statement
      (record { slots = 2 ∷ 3 ∷ []; spare = 14 }) (two none_len more) (λ _. 0) three refl refl refl
      (in_store-Leaves none_len more) (λ e. absurd cc) refl (three-Holds none_len more)

-- the leaf of length EMPTY is deleted and the statement is over
one_ends : and_checked (ported statement) (map ported (two none_len empty)) ≡ (
  true,
  tree
      (record (ported statement) { has_empty = true; len = empty })
      (cons (as_leaf (ported (on_thread 2 leaf_type none_len))) nil),
)
one_ends = refl
