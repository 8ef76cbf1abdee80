-- ===== src/Predecessor/Created.antt =====
-- MyCreateThread of function.cpp when it starts a thread.
use lib_msvl.Base.{
  Bool, ℕ, true, false, none, some, [], ◌∷◌, ◌++◌, ◌≡◌, ◌≢◌, refl, sym, ap, ◌∙◌, ◌==◌, eq→==, ne→==,
  if◌then◌else◌, Run, ok, exit,
}
use lib_msvl.Node.Store.{NodeType, leaf_type, more, same_type, bind-ok}
use lib_msvl.Scheduler.Startup.{Threads}
use lib_msvl.Predecessor.Objects.{Object, Heap, Program, at_address, modify_node, store}
use lib_msvl.Predecessor.OnHeap.{for_each}
use lib_msvl.Predecessor.Renewal.{new_object, finish_new, new_node_at, new_node_of}
use lib_msvl.Predecessor.Renewed.{insert_key-free, modify-some}
use lib_msvl.Predecessor.Startup.{node_of_thread, first_node, add_leaf, my_create_thread}

-- The node of the calling thread, behind MyCreateThread: it is to be of the class `type`, and has a
-- new child.
abbrev pub with_child : NodeType → ℕ → Object → Object
with_child type q o = record o {
  node = record o.node { new_type = type };
  childs = o.childs ++ (q ∷ []);
}

-- The new child of the node at `f`, member by member: a leaf of the new thread, with the mutex and
-- the condition that were made for it, whose thread has not called MyPauseThreadInit.
abbrev pub first_leaf : Bool → Threads → ℕ → Object
first_leaf junk lib f = record {
  node = record {
    thread = lib.thread;
    type = leaf_type;
    new_type = leaf_type;
    len = more;
    has_empty = false;
    mutex = lib.mutex;
    cond = lib.cond;
    is_init = false;
  };
  father = f;
  childs = [];
  ext_Q = true;
  has_ext_Q = junk;
}

-- The heap behind MyCreateThread: the node `f` of the calling thread has the new child `q`, which
-- is a leaf, registered under its thread; every other object `r` is as it was.
abbrev pub IsCreated : Program → Threads → NodeType → ℕ → ℕ → ℕ → Object → Heap → Heap → Type 0
IsCreated prog lib type f q r o h g =
    (g.object f ≡ some (with_child type q o))
    × (g.object q ≡ some (first_leaf prog.junk lib f))
    × (g.thread_id_to_node lib.thread ≡ some q)
    × (g.object r ≡ h.object r)

module _ (prog : Program) (lib : Threads) (f q : ℕ)
    (given : (g : Heap) → prog.new_node g ≡ some q) where
  abbrev leaf_made : Heap → Heap
  leaf_made h = record h {
    object = at_address q (some (new_object prog.junk (first_node lib f) leaf_type more)) h.object;
    thread_id_to_node = λ t. if t == lib.thread then some q else h.thread_id_to_node t;
  }

  new_leaf :
      (h : Heap)
      → h.thread_id_to_node lib.thread ≡ none
      → new_node_of prog leaf_type (first_node lib f) h ≡ ok (q, leaf_made h)
  unfolding new_node_of new_node_at store for_each finish_new
  new_leaf h free =
      ap
        (λ x. elim x as (λ _. Run (ℕ × Heap)) [
          | none ↦ exit 134
          | some p ↦ new_node_at prog leaf_type (first_node lib f) p h
        ])
        (given h)
      ∙ bind-ok _ (insert_key-free lib.thread q _ free)

  module _ (type : NodeType) (o : Object) (apart : f ≢ q) (starts : lib.created ≡ true) where
    abbrev changed : Heap → Heap
    changed h = record h {
      object = at_address f (some (record o { node = record o.node { new_type = type } })) h.object;
    }

    abbrev created : Heap → Heap
    created h = record (leaf_made (changed h)) {
      object = at_address f (some (with_child type q o)) (leaf_made (changed h)).object;
    }

    add_leaf-created :
        (h : Heap)
        → h.thread_id_to_node lib.thread ≡ none
        → add_leaf prog lib f (changed h) ≡ ok (tt, created h)
    unfolding add_leaf
    add_leaf-created h free = rw starts (
        bind-ok _ (new_leaf (changed h) free)
        ∙ modify-some (λ x. record x { childs = x.childs ++ (q ∷ []) }) f (leaf_made (changed h))
            (rw (ne→== f q apart) (rw (eq→== f f refl) refl)))

    node_of_thread-found :
        (h : Heap) → h.thread_id_to_node lib.self ≡ some f → node_of_thread lib.self h ≡ ok (f, h)
    unfolding node_of_thread
    node_of_thread-found h e =
        ap (λ x. elim x as (λ _. Run (ℕ × Heap)) [ none ↦ exit 134 | some p ↦ ok (p, h) ]) e

    -- MyCreateThread with a function, called by the thread of the node `f` where the tree has its
    -- root and the type is not the manager's: where the thread starts, is not registered yet, and
    -- `new` gives an address `q` other than that of `f`, it returns; the node of the calling thread
    -- is to be of the class that was given and has the new child at the end, which is a leaf of
    -- length MORE that has not called MyPauseThreadInit, registered under the new thread; every
    -- other object is as it was.
    pub my_create_thread-IsCreated :
        (init_lib : Threads) (r : ℕ) (h : Heap)
        → same_type type leaf_type ≡ false
        → h.thread_root ≢ 0
        → h.thread_id_to_node lib.self ≡ some f
        → h.object f ≡ some o
        → h.thread_id_to_node lib.thread ≡ none
        → r ≢ f
        → r ≢ q
        → (g : Heap) × (my_create_thread prog init_lib lib true type h ≡ ok (tt, g))
          × IsCreated prog lib type f q r o h g
    unfolding my_create_thread modify_node
    my_create_thread-IsCreated init_lib r h not_manager rooted at_self at_f free not_f not_q = (
      created h,
      rw not_manager (
          rw (ne→== h.thread_root 0 rooted) (
            bind-ok _ (node_of_thread-found h at_self)
            ∙ bind-ok _
                (modify-some (λ x. record x { node = record x.node { new_type = type } }) f h at_f)
            ∙ add_leaf-created h free)),
      (
        rw (eq→== f f refl) refl,
        rw (ne→== q f (λ e. apart (sym e))) (rw (eq→== q q refl) refl),
        rw (eq→== lib.thread lib.thread refl) refl,
        rw (ne→== r f not_f) (rw (ne→== r q not_q) refl),
      ),
    )
