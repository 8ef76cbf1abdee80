-- ===== src/Predecessor/Check.antt =====
-- The family isCorrectAndExit of function.cpp. A node's class is the one that its `type` names; an
-- ended child is deleted and its slot erased while the loop goes on. The loops use the iterator
-- that they have just erased at, which the C++ standard no longer allows: it is read as a pointer
-- into the vector, at which the next child then stands. The recursion follows the tree.
use lib_msvl.Base.{ℕ, ◌+◌, Bool, true, false, not, ◌&&◌, ◌||◌, ◌==◌, if◌then◌else◌, fault}
use lib_msvl.Node.Store.{
  more, empty, none_len, NodeType, and_type, pal_type, prj_type, keep_type, alw_type, leaf_type,
  root_type, len_code, same_type,
}
use lib_msvl.Predecessor.Tree.{
  ThreadNode, ThreadTree, tree, ThreadTrees, nil, cons, node_of, size, Act, return, destroy_tree,
  has_exited, ◌>>=◌, ◌>>◌,
}

-- a leaf of length EMPTY
abbrev pub is_empty_leaf : ThreadNode → Bool
is_empty_leaf n = len_code n.len == 1 && same_type n.type leaf_type

abbrev pub is_leaf : ThreadNode → Bool
is_leaf n = same_type n.type leaf_type

-- What the loop of AndNode and that of PalNode hand on: the two counts, `hasEmpty`, and the
-- children that stay.
pub record Scan : Type 0 where
  pub empty_num : ℕ
  pub none_num : ℕ
  pub seen_empty : Bool
  pub kept : ThreadTrees

-- one round in front of what the loop finds behind it
abbrev pub count_and : ThreadNode → Scan → Scan
count_and n s =
    if is_empty_leaf n
    then record s { empty_num = s.empty_num + 1; seen_empty = true }
    else if len_code n.len == 2
    then record s { none_num = s.none_num + 1 }
    else s

abbrev pub count_pal : Bool → ThreadNode → Scan → Scan
count_pal ended n s =
    if ended && len_code n.len == 1
    then record s { empty_num = s.empty_num + 1; seen_empty = true }
    else s

abbrev pub keep_unless : Bool → ThreadTree → Scan → Scan
keep_unless gone t s = if gone then s else record s { kept = cons t s.kept }

abbrev pub note_empty : ThreadNode → Scan → ThreadNode
note_empty n s = record n { has_empty = n.has_empty || s.seen_empty }

-- what follows the loop of AndNode, of `all` children before it
unfoldable pub and_node_end : ThreadNode → ℕ → Scan → Bool × ThreadTree
and_node_end n all s =
    if not (note_empty n s).has_empty
    then (
      false,
      tree (record (note_empty n s) { len = if s.none_num == all then none_len else more }) s.kept,
    )
    else if s.empty_num + s.none_num == all
    then (true, tree (record (note_empty n s) { len = empty }) s.kept)
    else (false, tree (note_empty n s) s.kept)

-- what follows the loop of PalNode
unfoldable pub pal_node_end : ThreadNode → ℕ → Scan → Bool × ThreadTree
pal_node_end n all s =
    if len_code n.len == 1
    then (true, tree (note_empty n s) s.kept)
    else if s.empty_num == all
    then (true, tree (record (note_empty n s) { len = empty }) s.kept)
    else (false, tree (note_empty n s) s.kept)

-- the loop of PrjNode from child 1 on
unfoldable pub prj_node_loop : ThreadTrees → ℕ → ℕ
prj_node_loop nil exit_num = exit_num
prj_node_loop (cons t ts) exit_num =
    prj_node_loop ts (if is_empty_leaf (node_of t) then exit_num + 1 else exit_num)

-- what follows it
unfoldable pub prj_node_end : ThreadNode → ThreadTrees → ℕ → Bool × ThreadTree
prj_node_end n childs exit_num =
    if len_code n.len == 1
    then (true, tree n childs)
    else if exit_num == size childs
    then (true, tree (record n { len = empty }) childs)
    else (false, tree n childs)

module _ (kill : ℕ → ℕ) where
  -- With no child, childs[0] lies outside the vector.
  unfoldable pub prj_node_check : ThreadNode → ThreadTrees → Act (Bool × ThreadTree)
  prj_node_check n nil = λ r. fault
  prj_node_check n (cons q ps) =
      return (
        prj_node_end n (cons q ps)
          (prj_node_loop ps (if has_exited kill (node_of q) then 1 else 0)))

  -- LeafNode, KeepNode and AlwNode
  unfoldable pub leaf_node_check : ThreadNode → Bool
  leaf_node_check n = has_exited kill n || not (len_code n.len == 0)

  unfoldable pub dispatch_check :
      Act Scan → Act Scan → NodeType → ThreadNode → ThreadTrees → Act (Bool × ThreadTree)
  dispatch_check and_loop pal_loop and_type n childs = do
    s ← and_loop
    return (and_node_end n (size childs) s)
  dispatch_check and_loop pal_loop pal_type n childs = do
    s ← pal_loop
    return (pal_node_end n (size childs) s)
  dispatch_check and_loop pal_loop prj_type n childs = prj_node_check n childs
  dispatch_check and_loop pal_loop keep_type n childs = return (has_exited kill n, tree n childs)
  dispatch_check and_loop pal_loop alw_type n childs = return (has_exited kill n, tree n childs)
  dispatch_check and_loop pal_loop leaf_type n childs = return (leaf_node_check n, tree n childs)
  -- Node is abstract: no object has that class.
  dispatch_check and_loop pal_loop root_type n childs = λ r. fault

  -- `delete node` in a loop
  unfoldable pub delete_if : Bool → ThreadTree → Act (Unit {0})
  delete_if gone t = if gone then destroy_tree kill false t else return tt

  unfoldable mutual
    pub check_tree : ThreadTree → Act (Bool × ThreadTree)
    check_tree (tree n childs) =
        dispatch_check (and_node_loop childs) (pal_node_loop childs) n.type n childs

    pub and_node_loop : ThreadTrees → Act Scan
    and_node_loop nil =
        return (record { empty_num = 0; none_num = 0; seen_empty = false; kept = nil })
    and_node_loop (cons t ts) = do
      (exited, u) ← check_tree t
      delete_if (exited && is_empty_leaf (node_of u)) u
      s ← and_node_loop ts
      return (keep_unless (exited && is_empty_leaf (node_of u)) u (count_and (node_of u) s))

    pub pal_node_loop : ThreadTrees → Act Scan
    pal_node_loop nil =
        return (record { empty_num = 0; none_num = 0; seen_empty = false; kept = nil })
    pal_node_loop (cons t ts) = do
      (exited, u) ← check_tree t
      delete_if (exited && is_leaf (node_of u)) u
      s ← pal_node_loop ts
      return (
          keep_unless (exited && is_leaf (node_of u)) u
            (count_pal (exited && is_leaf (node_of u)) (node_of u) s))
