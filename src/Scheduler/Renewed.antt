-- ===== src/Scheduler/Renewed.antt =====
-- What GetNewNode of node.c puts in the place of a node without children.
use lib_msvl.Base.{
  ℕ, Bool, true, false, none, some, [], ◌≡◌, ◌≢◌, refl, sym, ap, ◌∙◌, ◌⊎◌, inl, inr, ne→==,
  if◌then◌else◌, Run, ok,
}
use lib_msvl.Node.Store.{
  Node, Store, NodeType, and_type, leaf_type, more, update, update-same, update-other, bind-ok,
  load-some, modify-some,
}
use lib_msvl.Node.Fields.{set_mutex, set_cond}
use lib_msvl.Node.Create.{create, import, import_slots, set_fathers_of, type_of_bool, bool_of_type}
use lib_msvl.Node.Kinds.{granted}
use lib_msvl.Node.Destroy.{destroy_slots, destroy}
use lib_msvl.Node.Children.{slots_of}
use lib_msvl.Scheduler.World.{World, Env, aborts, on_nodes, on_nodes-ok, on_nodes-load}
use lib_msvl.Scheduler.Renew.{get_new_node, import_as, clear_childs, emptied}

-- A node without children as node_create makes it.
abbrev created : ℕ → ℕ → NodeType → Bool → ℕ → ℕ → Node
created thread father type is_init mutex cond = record {
  thread = thread;
  father = father;
  childs = some (record { slots = []; spare = 16 });
  type = type;
  new_type = type;
  len = more;
  is_init = is_init;
  has_empty = false;
  mutex = mutex;
  cond = cond;
  ext_Q = false;
  has_ext_Q = false;
  allocated = type;
}

create-created :
    (address thread father : ℕ) (b is_init : Bool) (mutex cond : ℕ) (s : Store)
    → address ≢ 0
    → create (granted address) thread father none (type_of_bool b) is_init mutex cond s
      ≡ ok (
        (address, none),
        update address (some (created thread father (type_of_bool b) is_init mutex cond)) s,
      )
unfolding create import_slots set_fathers_of
create-created address thread father true is_init mutex cond s h = rw (ne→== address 0 h) refl
create-created address thread father false is_init mutex cond s h = rw (ne→== address 0 h) refl

-- The new node of an old one: its type is AND or PAL by the old flag `is_init`, and that flag says
-- that the old type was not AND.
pub renewed : Node → Node
renewed n =
    record (created n.thread n.father (type_of_bool n.is_init) (bool_of_type n.type) n.mutex
      n.cond) { new_type = n.new_type; len = n.len; has_empty = n.has_empty }

-- The new node is there, the old one has lost its mutex and condition, all others are as they were.
pub Renewed : Store → ℕ → ℕ → Node → Run (ℕ × Store) → Type 0
Renewed s node address n r =
    (s' : Store) × (r ≡ ok (address, s'))
    × (s' address ≡ some (renewed n))
    × (s' node ≡ some (record n { mutex = 0; cond = 0 }))
    × ((q : ℕ) → q ≢ node → q ≢ address → s' q ≡ s q)

module _ (s : Store) (node address : ℕ) (n : Node) (h : node ≢ 0) (ha : address ≢ 0)
    (apart : address ≢ node) (at_node : s node ≡ some n) (childless : n.childs ≡ none) where
  import-Renewed : Renewed s node address n (import (granted address) node s)
  unfolding import Renewed renewed set_mutex set_cond
  import-Renewed = (
    s5,
    rw (ne→== node 0 h) (
        bind-ok _ (load-some s node at_node)
        ∙ bind-ok _ (
            ap
              (λ o.
                create (granted address) n.thread n.father o (type_of_bool n.is_init)
                  (bool_of_type n.type) n.mutex n.cond s)
              childless
            ∙ create-created address n.thread n.father n.is_init (bool_of_type n.type) n.mutex
                n.cond s ha)
        ∙ bind-ok _ (modify-some s1 node (λ m. record m { childs = none }) s1-node)
        ∙ bind-ok _ (
            modify-some s2 address
              (λ m. record m { new_type = n.new_type; len = n.len; has_empty = n.has_empty })
              s2-address)
        ∙ bind-ok _ (modify-some s3 node (λ m. record m { mutex = 0 }) s3-node)
        ∙ bind-ok _ (modify-some s4 node (λ m. record m { cond = 0 }) (update-same node _ s3))),
    update-other node address _ s4 apart
        ∙ update-other node address _ s3 apart
        ∙ update-same address _ s2,
    update-same node _ s4
        ∙ ap (λ o. some (record n { childs = o; mutex = 0; cond = 0 })) (sym childless),
    λ q d da.
        update-other node q _ s4 d
        ∙ update-other node q _ s3 d
        ∙ update-other address q _ s2 da
        ∙ update-other node q _ s1 d
        ∙ update-other address q _ s da,
  )
    where
      new : Node
      new = created n.thread n.father (type_of_bool n.is_init) (bool_of_type n.type) n.mutex n.cond

      s1 : Store
      s1 = update address (some new) s

      s1-node : s1 node ≡ some n
      s1-node = update-other address node _ s (λ e. apart (sym e)) ∙ at_node

      s2 : Store
      s2 = update node (some (record n { childs = none })) s1

      s2-address : s2 address ≡ some new
      s2-address = update-other node address _ s1 apart ∙ update-same address _ s

      s3 : Store
      s3 = update address (some (renewed n)) s2

      s3-node : s3 node ≡ some (record n { childs = none })
      s3-node = update-other address node _ s2 (λ e. apart (sym e)) ∙ update-same node _ s1

      s4 : Store
      s4 = update node (some (record n { childs = none; mutex = 0 })) s3

      s5 : Store
      s5 = update node (some (record n { childs = none; mutex = 0; cond = 0 })) s4

-- dyn_array_clear of a NULL array writes nothing new.
clear_childs-none :
    (depth node : ℕ) (s : Store) (n : Node)
    → s node ≡ some n
    → n.childs ≡ none
    → clear_childs true depth node s ≡ ok (tt, update node (some (record n { childs = none })) s)
unfolding clear_childs destroy_slots
clear_childs-none depth node s n at_node childless =
    bind-ok _ (load-some s node at_node)
    ∙ bind-ok _ (ap (λ o. destroy_slots (destroy false true depth) (slots_of o) s) childless)
    ∙ modify-some s node (λ m. record m { childs = emptied m.childs }) at_node
    ∙ ap (λ o. ok (tt, update node (some (record n { childs = emptied o })) s)) childless

module _ (depth node address : ℕ) (s : Store) (n : Node) (h : node ≢ 0) (ha : address ≢ 0)
    (apart : address ≢ node) (at_node : s node ≡ some n) (childless : n.childs ≡ none) where
  import_as-Renewed :
      (t : NodeType)
      → (t ≡ leaf_type) ⊎ (t ≡ and_type)
      → Renewed s node address n (import_as true depth (granted address) t node s)
  unfolding import_as Renewed renewed
  import_as-Renewed t (inr e) =
      let (s', run, at_new, at_old, same) =
        import-Renewed s node address n h ha apart at_node childless in
      (s', ap (λ k. import_as true depth (granted address) k node s) e ∙ run, at_new, at_old, same)
  import_as-Renewed t (inl e) =
      let s0 = update node (some (record n { childs = none })) s in
      let (s', run, at_new, at_old, same) =
        import-Renewed s0 node address (record n { childs = none }) h ha apart
          (update-same node _ s) refl in
      (
        s',
        ap (λ k. import_as true depth (granted address) k node s) e
            ∙ bind-ok _ (clear_childs-none depth node s n at_node childless)
            ∙ run,
        at_new,
        at_old ∙ ap (λ o. some (record n { childs = o; mutex = 0; cond = 0 })) (sym childless),
        λ q d da. same q d da ∙ update-other node q _ s d,
      )

-- GetNewNode of a node without an array of children that is to become a LEAF or an AND, where
-- malloc, the map's erasure and its insertion succeed: the old node hands its thread, father,
-- length and new type, and its mutex and condition, to a new one; but the type of the new one is
-- PAL if the old one was initialised and AND if it was not, whatever type was asked for. All other
-- nodes stay.
pub get_new_node-Renewed :
    (env : Env) (depth node address : ℕ) (w : World) (n : Node)
    → env.erases ≡ true
    → env.answers w ≡ granted address
    → node ≢ 0
    → address ≢ 0
    → address ≢ node
    → w.nodes node ≡ some n
    → n.childs ≡ none
    → (n.new_type ≡ leaf_type) ⊎ (n.new_type ≡ and_type)
    → (s' : Store) × (get_new_node env depth node w ≡ ok (address, record w { nodes = s' }))
      × (s' address ≡ some (renewed n))
      × (s' node ≡ some (record n { mutex = 0; cond = 0 }))
      × ((q : ℕ) → q ≢ node → q ≢ address → s' q ≡ w.nodes q)
unfolding get_new_node Renewed
get_new_node-Renewed env depth node address w n erases granting h ha apart at_node childless t =
    let (s', run, at_new, at_old, same) =
      import_as-Renewed depth node address w.nodes n h ha apart at_node childless n.new_type t in
    (
      s',
      bind-ok _ (on_nodes-load w node at_node)
          ∙ ap
              (λ b.
                (if b
                    then (λ v. on_nodes (import_as b depth (env.answers v) n.new_type node) v)
                    else aborts)
                  w)
              erases
          ∙ ap (λ a. on_nodes (import_as true depth a n.new_type node) w) granting
          ∙ on_nodes-ok (import_as true depth (granted address) n.new_type node) w run,
      at_new,
      at_old,
      same,
    )
