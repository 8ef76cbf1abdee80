-- ===== src/Node/Examples.antt =====
-- A statement at address 1 with two children, at 2 and 3, and the theorems about node.c at it.
use lib_msvl.Base.{
  ℕ, zero, suc, ◌≡◌, ◌≢◌, refl, true, false, Option, none, some, [], ◌∷◌, ◌++◌, take, drop, arith,
  ok, fault,
}
use lib_msvl.Node.Store.{
  NodeLength, more, empty, none_len, NodeType, and_type, pal_type, prj_type, keep_type, leaf_type,
  Childs, Node, Store, update,
}
use lib_msvl.Node.Children.{insert_child, insert_childs}
use lib_msvl.Node.Create.{and_node_create, pal_node_create, leaf_node_create, prj_node_create}
use lib_msvl.Node.Check.{
  prj_is_correct_and_exit, thread_exited, is_correct_and_exit, and_is_correct_and_exit,
  pal_is_correct_and_exit,
}
use lib_msvl.Node.Position.{HasKinds, ChildsInserted, reverse_onto, insertions-ChildsInserted}
use lib_msvl.Node.Kinds.{new_and, granted, create-new_and, prj_node_create-NotOk}
use lib_msvl.Node.Verdict.Leaves.{Leaves, finished}
use lib_msvl.Node.Verdict.And.{and-Leaves}
use lib_msvl.Node.Verdict.Ranks.{Stops}
use lib_msvl.Node.Verdict.Prj.{prj-NotOk}
use lib_msvl.Node.Destroy.{destroy}
use lib_msvl.Node.Destroyed.{Freed, destroy-childs, destroy-Freed}
use lib_msvl.Node.Verdict.Pal.{pal-Leaves}

abbrev a_node : NodeType → NodeLength → Option Childs → Node
a_node type len childs = record {
  thread = 7;
  father = 0;
  childs = childs;
  type = type;
  new_type = type;
  len = len;
  is_init = false;
  has_empty = false;
  mutex = 0;
  cond = 0;
  ext_Q = false;
  has_ext_Q = false;
  allocated = type;
}

abbrev two_slots : Childs
two_slots = record { slots = 2 ∷ 3 ∷ []; spare = 14 }

abbrev a_tree : Node → Node → Node → Store
a_tree n m m' = update 1 (some n) (update 2 (some m) (update 3 (some m') (λ _. none)))

abbrev and_node : Node
and_node = a_node and_type more (some two_slots)

abbrev pal_node : Node
pal_node = a_node pal_type empty (some two_slots)

-- a leaf and then a KEEP
abbrev a_kind : ℕ → NodeType
a_kind zero = leaf_type
a_kind (suc i) = keep_type

abbrev with_keep : Store
with_keep = a_tree and_node (a_node leaf_type more none) (a_node keep_type none_len none)

with_keep-HasKinds : HasKinds with_keep (2 ∷ 3 ∷ []) a_kind
unfolding HasKinds
with_keep-HasKinds zero h = (2, a_node leaf_type more none, refl, refl, refl)
with_keep-HasKinds (suc zero) h = (3, a_node keep_type none_len none, refl, refl, refl)
with_keep-HasKinds (suc (suc i)) h = absurd (omega arith)

insertions-ChildsInserted_example :
    ChildsInserted with_keep 1 and_node
      (2 ∷ 3 ∷ [])
      a_kind
      (λ i. take i (2 ∷ 3 ∷ []) ++ reverse_onto (8 ∷ 9 ∷ []) (drop i (2 ∷ 3 ∷ [])))
      (insert_childs 1 (8 ∷ 9 ∷ []) with_keep)
    × ChildsInserted with_keep 1 and_node
        (2 ∷ 3 ∷ [])
        a_kind
        (λ i. take i (2 ∷ 3 ∷ []) ++ (9 ∷ drop i (2 ∷ 3 ∷ [])))
        (insert_child 1 9 with_keep)
insertions-ChildsInserted_example =
    insertions-ChildsInserted with_keep 1 and_node two_slots a_kind refl refl with_keep-HasKinds 9
      (8 ∷ 9 ∷ [])

create-new_and_example :
    (and_node_create (granted 4) 7 1 none false 0 0 with_keep
      ≡ ok ((4, none), update 4 (some (new_and 7 1 false 0 0)) with_keep))
    × (pal_node_create (granted 4) 7 1 none false 0 0 with_keep
        ≡ ok ((4, none), update 4 (some (new_and 7 1 true 0 0)) with_keep))
    × (leaf_node_create (granted 4) 7 1 none false 0 0 with_keep
        ≡ ok ((4, none), update 4 (some (new_and 7 1 true 0 0)) with_keep))
create-new_and_example = create-new_and 4 7 1 0 0 with_keep (λ e. omega arith)

prj_node_in_small_block :
    prj_node_create (granted 4) 7 1 none false 0 0 with_keep ≢ ok ((4, none), with_keep)
prj_node_in_small_block =
    prj_node_create-NotOk (granted 4) 7 1 none false 0 0 with_keep refl ((4, none), with_keep)

-- every thread is alive
abbrev alive : ℕ → ℕ
alive thread = 0

abbrev a_leaf : NodeLength → Node
a_leaf len = a_node leaf_type len none

abbrev leaves_of : NodeLength → NodeLength → Node → Store
leaves_of l l' n = a_tree n (a_leaf l) (a_leaf l')

a_tree-Leaves :
    (n : Node) (l l' : NodeLength)
    → Leaves (leaves_of l l' n) (2 ∷ 3 ∷ []) (a_leaf l ∷ a_leaf l' ∷ [])
unfolding Leaves
a_tree-Leaves n l l' = ((λ e. omega arith), refl, refl, ((λ e. omega arith), refl, refl, tt))

and-Leaves_example :
    and_is_correct_and_exit alive (is_correct_and_exit alive 1) 1 (leaves_of none_len more and_node)
    ≡ ok
        (false, update 1 (some (record and_node { len = more })) (leaves_of none_len more and_node))
and-Leaves_example =
    and-Leaves alive 0 1 (leaves_of none_len more and_node) and_node two_slots
      (a_leaf none_len ∷ a_leaf more ∷ []) refl refl refl (a_tree-Leaves and_node none_len more)
      (λ e. absurd cc)

pal-Leaves_example :
    pal_is_correct_and_exit alive (is_correct_and_exit alive 1) 1 (leaves_of more more pal_node)
    ≡ ok (true, leaves_of more more pal_node)
unfolding finished thread_exited
pal-Leaves_example =
    pal-Leaves alive 0 1 (leaves_of more more pal_node) pal_node two_slots
      (a_leaf more ∷ a_leaf more ∷ []) refl refl (λ e. absurd cc) (a_tree-Leaves pal_node more more)

abbrev prj_node : Node
prj_node = a_node prj_type more (some two_slots)

prj-NotOk_example : prj_is_correct_and_exit alive 1 (leaves_of more empty prj_node) ≡ fault
prj-NotOk_example = prj-NotOk alive 1 (leaves_of more empty prj_node)

destroy-childs_example : destroy false true 2 1 (leaves_of more more and_node) ≡ fault
destroy-childs_example =
    destroy-childs true 0 1 2 (3 ∷ []) (leaves_of more more and_node) and_node (λ e. omega arith)
      refl refl (λ e. omega arith)

Freed-alone :
    Freed (leaves_of more more and_node) 3 (destroy true true 1 3 (leaves_of more more and_node))
    × Freed (leaves_of more more and_node) 3 (destroy false true 1 3 (leaves_of more more and_node))
Freed-alone =
    destroy-Freed 0 3 (leaves_of more more and_node) (a_leaf more) true (λ e. omega arith) refl refl

-- an AND at 1 with the leaves at 2 and 3
abbrev one_statement : Store
one_statement zero = none
one_statement (suc zero) = some and_node
one_statement (suc (suc zero)) = some (a_leaf more)
one_statement (suc (suc (suc zero))) = some (a_leaf none_len)
one_statement (suc (suc (suc (suc p)))) = none

abbrev height : ℕ → ℕ
height zero = 0
height (suc zero) = 1
height (suc (suc p)) = 0
