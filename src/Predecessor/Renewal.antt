-- ===== src/Predecessor/Renewal.antt =====
-- The constructors of the classes of nodes in function.cpp, and getNewNode.
use lib_msvl.Base.{ℕ, Bool, true, false, none, some, List, [], ◌==◌, if◌then◌else◌, Run, ok, exit}
use lib_msvl.Base.Stateful.{return, ends_program, ◌>>=◌, ◌>>◌}
use lib_msvl.Node.Store.{
  NodeLength, NodeType, and_type, pal_type, prj_type, keep_type, alw_type, leaf_type, root_type,
  more, none_len,
}
use lib_msvl.Predecessor.Objects.{Object, Heap, Program, H, load, store, modify, modify_node}
use lib_msvl.Predecessor.OnHeap.{erase_key, for_each}

-- what a constructor is given
pub record Arguments : Type 0 where
  pub thread : ℕ
  pub father : ℕ
  pub childs : List ℕ
  pub mutex : ℕ
  pub cond : ℕ
  pub is_init : Bool

-- setFatherNode, with its assertion
unfoldable pub set_father_node : ℕ → ℕ → H (Unit {0})
set_father_node father this =
    if this == father then ends_program 134 else modify (λ o. record o { father = father }) this

-- `assert(threadIDToNode.insert(ele).second)`
unfoldable pub insert_key : ℕ → ℕ → H (Unit {0})
insert_key thread p h = elim (h.thread_id_to_node thread) as (λ _. Run (Unit {0} × Heap)) [
  | some _ ↦ exit 134
  | none ↦ ok (
    tt,
    record h { thread_id_to_node = λ t. if t == thread then some p else h.thread_id_to_node t },
  )
]

abbrev pub new_object : Bool → Arguments → NodeType → NodeLength → Object
new_object junk a type len = record {
  node = record {
    thread = a.thread;
    type = type;
    new_type = type;
    len = len;
    has_empty = false;
    mutex = a.mutex;
    cond = a.cond;
    is_init = a.is_init;
  };
  father = a.father;
  childs = a.childs;
  ext_Q = true;
  has_ext_Q = junk;
}

-- `new AndNode(…)` and its kin: a constructor of Node, then that of the class. Where `new` throws,
-- nothing catches it. KeepNode and AlwNode set the length of the father too.
unfoldable pub finish_new : NodeType → ℕ → ℕ → H (Unit {0})
finish_new keep_type p father = do
  modify_node (λ n. record n { len = none_len }) p
  modify_node (λ n. record n { len = none_len }) father
finish_new alw_type p father = do
  modify_node (λ n. record n { len = none_len }) p
  modify_node (λ n. record n { len = none_len }) father
finish_new _ p father = return tt

module _ (prog : Program) where
  unfoldable pub new_node_at : NodeType → Arguments → ℕ → H ℕ
  new_node_at type a p = do
    store p (some (new_object prog.junk a type more))
    insert_key a.thread p
    for_each (set_father_node p) a.childs
    finish_new type p a.father
    return p

  unfoldable pub new_node_of : NodeType → Arguments → H ℕ
  new_node_of type a h = elim (prog.new_node h) as (λ _. Run (ℕ × Heap)) [
    | none ↦ exit 134
    | some p ↦ new_node_at type a p h
  ]

  -- The constructor from an old node takes what it holds; `setMutex(NULL)` and `setCond(NULL)`
  -- follow.
  unfoldable pub new_from : NodeType → ℕ → H ℕ
  new_from type node = do
    o ← load node
    p ← new_node_of type (record {
      thread = o.node.thread;
      father = o.father;
      childs = o.childs;
      mutex = o.node.mutex;
      cond = o.node.cond;
      is_init = o.node.is_init;
    })
    modify_node (λ n. record n { mutex = 0; cond = 0 }) node
    return p

  -- the switch of getNewNode
  unfoldable pub new_by : NodeType → ℕ → H ℕ
  new_by leaf_type node = do modify (λ o. record o { childs = [] }) node; new_from leaf_type node
  new_by and_type node = new_from and_type node
  new_by pal_type node = new_from pal_type node
  new_by prj_type node = new_from prj_type node
  new_by keep_type node = new_from keep_type node
  new_by alw_type node = new_from alw_type node
  new_by root_type node = ends_program 0

  -- getNewNode: the old object stays, with its `delete` commented out.
  unfoldable pub renewed_node : ℕ → H ℕ
  renewed_node node = do o ← load node; erase_key o.node.thread; new_by o.node.new_type node
