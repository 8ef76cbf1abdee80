-- ===== src/Predecessor/OnHeap.antt =====
-- ~Node and isCorrectAndExit of function.cpp on the objects, as the rest of the file calls them.
-- The recursion takes fuel for the depth. An iterator that the loops have erased at is read as a
-- pointer into the vector, at which the next child then stands.
use lib_msvl.Base.{
  ℕ, zero, suc, ◌+◌, Bool, true, false, not, ◌&&◌, none, some, List, [], ◌∷◌, ◌++◌, ◌==◌,
  if◌then◌else◌, length, take, drop, Run, ok, exit,
}
use lib_msvl.Base.Stateful.{return, undefined, diverges, change, ◌>>=◌, ◌>>◌}
use lib_msvl.Node.Store.{
  NodeType, and_type, pal_type, prj_type, keep_type, alw_type, leaf_type, root_type, more, empty,
  none_len, len_code,
}
use lib_msvl.Predecessor.Tree.{release, has_exited}
use lib_msvl.Predecessor.Check.{is_empty_leaf, is_leaf, leaf_node_check}
use lib_msvl.Predecessor.Objects.{Heap, H, load, modify, modify_node, at_address, childs_of}

-- `assert(threadIDToNode.erase(thread) == 1)`
unfoldable pub erase_key : ℕ → H (Unit {0})
erase_key thread h = elim (h.thread_id_to_node thread) as (λ _. Run (Unit {0} × Heap)) [
  | none ↦ exit 134
  | some _ ↦ ok (
    tt,
    record h { thread_id_to_node = λ t. if t == thread then none else h.thread_id_to_node t },
  )
]

unfoldable pub for_each : (ℕ → H (Unit {0})) → List ℕ → H (Unit {0})
for_each f [] = return tt
for_each f (p ∷ ps) = do f p; for_each f ps

-- `delete p`, while isCopied is false; of NULL it does nothing
unfoldable pub delete_node : ℕ → ℕ → H (Unit {0})
delete_node zero p = diverges
delete_node (suc depth) p = if p == 0 then return tt else (do
  o ← load p
  for_each (delete_node depth) o.childs
  erase_key o.node.thread
  change (λ h. record h {
    object = at_address p none h.object;
    calls = h.calls ++ release h.exits (p == h.thread_root) o.node;
  }))

-- isExit
unfoldable pub exited_at : ℕ → H Bool
exited_at p = do o ← load p; (λ h. ok (has_exited h.exits o.node, h))

-- `childs.erase(it)` of the element at `i`
unfoldable pub erase_child : ℕ → ℕ → H (Unit {0})
erase_child this i =
    modify (λ o. record o { childs = take i o.childs ++ drop (suc i) o.childs }) this

module _ (depth : ℕ) (check : ℕ → H Bool) where
  -- The loop of AndNode from the element at `i` on, which `ps` are the rest of.
  unfoldable pub and_childs : ℕ → List ℕ → ℕ → ℕ → ℕ → H (ℕ × ℕ)
  and_childs this [] i empty_num none_num = return (empty_num, none_num)
  and_childs this (p ∷ ps) i empty_num none_num = do
    exited ← check p
    o ← load p
    (if is_empty_leaf o.node
        then modify_node (λ n. record n { has_empty = true }) this
        else return tt)
    (if exited && is_empty_leaf o.node
        then (do delete_node depth p; erase_child this i)
        else return tt)
    and_childs this ps (if exited && is_empty_leaf o.node then i else i + 1)
        (if is_empty_leaf o.node then empty_num + 1 else empty_num)
        (if is_empty_leaf o.node
          then none_num
          else if len_code o.node.len == 2
          then none_num + 1
          else none_num)

  -- AndNode::isCorrectAndExit
  unfoldable pub and_correct : ℕ → H Bool
  and_correct this = do
    ps ← childs_of this
    (empty_num, none_num) ← and_childs this ps 0 0 0
    o ← load this
    (if not o.node.has_empty
        then (do
          modify_node (λ n. record n { len = if none_num == length ps then none_len else more })
              this
          return false)
        else if empty_num + none_num == length ps
        then (do modify_node (λ n. record n { len = empty }) this; return true)
        else return false)

  -- the loop of PalNode
  unfoldable pub pal_childs : ℕ → List ℕ → ℕ → ℕ → H ℕ
  pal_childs this [] i empty_num = return empty_num
  pal_childs this (p ∷ ps) i empty_num = do
    ended ← check p
    o ← load p
    (if ended && is_leaf o.node
        then (do
          (if len_code o.node.len == 1
              then modify_node (λ n. record n { has_empty = true }) this
              else return tt)
          delete_node depth p
          erase_child this i)
        else return tt)
    pal_childs this ps (if ended && is_leaf o.node then i else i + 1)
        (if (ended && is_leaf o.node) && len_code o.node.len == 1 then empty_num + 1 else empty_num)

  -- PalNode::isCorrectAndExit
  unfoldable pub pal_correct : ℕ → H Bool
  pal_correct this = do
    ps ← childs_of this
    empty_num ← pal_childs this ps 0 0
    o ← load this
    (if len_code o.node.len == 1
        then return true
        else if empty_num == length ps
        then (do modify_node (λ n. record n { len = empty }) this; return true)
        else return false)

-- the loop of PrjNode from child 1 on
unfoldable pub prj_childs : List ℕ → ℕ → H ℕ
prj_childs [] exit_num = return exit_num
prj_childs (p ∷ ps) exit_num = do
  o ← load p
  prj_childs ps (if is_empty_leaf o.node then exit_num + 1 else exit_num)

-- PrjNode::isCorrectAndExit; with no child, childs[0] lies outside the vector
unfoldable pub prj_correct_of : ℕ → List ℕ → H Bool
prj_correct_of this [] = undefined
prj_correct_of this (q ∷ ps) = do
  first ← exited_at q
  exit_num ← prj_childs ps (if first then 1 else 0)
  o ← load this
  (if len_code o.node.len == 1
      then return true
      else if exit_num == length (q ∷ ps)
      then (do modify_node (λ n. record n { len = empty }) this; return true)
      else return false)

unfoldable pub leaf_correct : ℕ → H Bool
leaf_correct this = do o ← load this; (λ h. ok (leaf_node_check h.exits o.node, h))

-- the classes of the objects; Node itself is abstract
unfoldable pub correct_by : ℕ → (ℕ → H Bool) → NodeType → ℕ → H Bool
correct_by depth check and_type this = and_correct depth check this
correct_by depth check pal_type this = pal_correct depth check this
correct_by depth check prj_type this = do ps ← childs_of this; prj_correct_of this ps
correct_by depth check keep_type this = exited_at this
correct_by depth check alw_type this = exited_at this
correct_by depth check leaf_type this = leaf_correct this
correct_by depth check root_type this = undefined

-- isCorrectAndExit
unfoldable pub is_correct : ℕ → ℕ → H Bool
is_correct zero this = diverges
is_correct (suc depth) this = do o ← load this; correct_by depth (is_correct depth) o.node.type this
