-- ===== src/Predecessor/Renewed.antt =====
-- getNewNode of function.cpp for a node without children, or one that becomes a leaf.
use lib_msvl.Base.{
  ℕ, Bool, true, false, none, some, List, [], ◌≡◌, ◌≢◌, ap, ◌==◌, if◌then◌else◌, Run, ok, exit,
}
use lib_msvl.Node.Store.{
  NodeType, and_type, pal_type, prj_type, keep_type, alw_type, leaf_type, root_type, more, bind-ok,
}
use lib_msvl.Predecessor.Objects.{Object, Heap, Program, at_address, load-some, store, modify}
use lib_msvl.Predecessor.Renewal.{Arguments, new_object, insert_key}

-- The classes whose constructors leave the father alone.
abbrev pub is_plain : NodeType → Bool
is_plain keep_type = false
is_plain alw_type = false
is_plain root_type = false
is_plain _ = true

-- The children that the new node takes over: a leaf has none.
abbrev pub taken_over : NodeType → List ℕ → List ℕ
taken_over leaf_type ps = []
taken_over and_type ps = ps
taken_over pal_type ps = ps
taken_over prj_type ps = ps
taken_over keep_type ps = ps
taken_over alw_type ps = ps
taken_over root_type ps = ps

abbrev pub without_childs : Object → Object
without_childs o = record o { childs = [] }

abbrev pub arguments_of : Object → Arguments
arguments_of o = record {
  thread = o.node.thread;
  father = o.father;
  childs = [];
  mutex = o.node.mutex;
  cond = o.node.cond;
  is_init = o.node.is_init;
}

abbrev pub released : Object → Object
released o = record (without_childs o) { node = record o.node { mutex = 0; cond = 0 } }

-- A thread that the map does not have is put in.
pub insert_key-free :
    (thread p : ℕ) (h : Heap)
    → h.thread_id_to_node thread ≡ none
    → insert_key thread p h
      ≡ ok (
        tt,
        record h { thread_id_to_node = λ t. if t == thread then some p else h.thread_id_to_node t },
      )
unfolding insert_key
insert_key-free thread p h free =
    ap
      (λ x. elim x as (λ _. Run (Unit {0} × Heap)) [
        | some _ ↦ exit 134
        | none ↦ ok (
          tt,
          record h {
            thread_id_to_node = λ t. if t == thread then some p else h.thread_id_to_node t;
          },
        )
      ])
      free

pub modify-some :
    (f : Object → Object) (p : ℕ) (h : Heap) {o : Object}
    → h.object p ≡ some o
    → modify f p h ≡ ok (tt, record h { object = at_address p (some (f o)) h.object })
unfolding modify store
modify-some f p h e = bind-ok _ (load-some h p e)

module _ (prog : Program) (o : Object) (q : ℕ) where
  abbrev made : NodeType → Heap → Heap
  made kind g = record g {
    object = at_address q (some (new_object prog.junk (arguments_of o) kind more)) g.object;
    thread_id_to_node = λ t. if t == o.node.thread then some q else g.thread_id_to_node t;
  }

  module _ (p : ℕ) (apart : p ≢ q) (given : (g : Heap) → prog.new_node g ≡ some q) where
    abbrev renewed : NodeType → Heap → Heap
    renewed kind g = record (made kind g) {
      object = at_address p (some (released o)) (made kind g).object;
    }

-- The node that takes the place of the object `o`, member by member. The constructor of PrjNode
-- sets `extQ`, which the other classes do not have, and no constructor sets `hasExtQ`.
abbrev pub renewal : Bool → Object → Object
renewal junk o = record {
  node = record {
    thread = o.node.thread;
    type = o.node.new_type;
    new_type = o.node.new_type;
    len = more;
    has_empty = false;
    mutex = o.node.mutex;
    cond = o.node.cond;
    is_init = o.node.is_init;
  };
  father = o.father;
  childs = [];
  ext_Q = true;
  has_ext_Q = junk;
}

-- What getNewNode leaves behind: the new node `q`, of the class that was asked for and with all
-- that the old node `p` held but for its children, registered under the thread, and the old object
-- without mutex, condition and children. Every other object `r` is as it was.
abbrev pub IsRenewed : Program → Object → ℕ → ℕ → ℕ → Heap → Heap → Type 0
IsRenewed prog o p q r h g =
    (g.object q ≡ some (renewal prog.junk o))
    × (g.thread_id_to_node o.node.thread ≡ some q)
    × (g.object p ≡ some (released o))
    × (g.object r ≡ h.object r)

module _ (prog : Program) (o : Object) (p q r : ℕ) (apart : p ≢ q)
    (given : (g : Heap) → prog.new_node g ≡ some q) (not_p : r ≢ p) (not_q : r ≢ q) where
  abbrev erased : Heap → Heap
  erased h = record h {
    thread_id_to_node = λ t. if t == o.node.thread then none else h.thread_id_to_node t;
  }

  abbrev cleared : Heap → Heap
  cleared h = record h { object = at_address p (some (without_childs o)) h.object }

  -- the heap on which the constructor starts
  abbrev ready : NodeType → Heap → Heap
  ready leaf_type h = cleared h
  ready and_type h = h
  ready pal_type h = h
  ready prj_type h = h
  ready keep_type h = h
  ready alw_type h = h
  ready root_type h = h
