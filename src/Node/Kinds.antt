-- ===== src/Node/Kinds.antt =====
-- What the constructors of the kinds of node.c create.
use lib_msvl.Base.{
  ℕ, zero, suc, ◌≡◌, ◌≢◌, refl, subst, sym, ap, ◌∙◌, Bool, true, false, Bool-cases, inl, inr, ◌⊎◌,
  Option, none, some, List, [], ne→==, ◌==◌, if◌then◌else◌, arith, Run, ok, fault, exit,
  out_of_fuel,
}
use lib_msvl.Base
use lib_msvl.Node.Store.{
  NodeType, and_type, pal_type, prj_type, leaf_type, more, Childs, Node, Store, load, store, pure,
  update, same_type, bind-ok, load-some, load-none, ◌>>◌, update-same, update-other,
}
use lib_msvl.Node.Create.{
  Answers, import_slots, set_fathers_of, create, type_of_bool, bool_of_type, create_kind,
  prj_node_create, and_node_create, pal_node_create, leaf_node_create,
}

-- no value comes out
NotOk : {A : Type 0} → Run A → Type 0
NotOk {A} r = (a : A) → r ≢ ok a

NotOk-bind :
    {A B : Type 0} (r : Run A) (k : A → Run B) → ((a : A) → NotOk (k a)) → NotOk (Base.◌>>=◌ r k)
unfolding NotOk
NotOk-bind (ok a) k h b e = h a b e
NotOk-bind fault k h b e = cc
NotOk-bind (exit n) k h b e = cc
NotOk-bind out_of_fuel k h b e = cc

-- a new node with no child, of type AND
pub new_and : ℕ → ℕ → Bool → ℕ → ℕ → Node
new_and thread father is_init mutex cond = record {
  thread = thread;
  father = father;
  childs = some (record { slots = []; spare = 16 });
  type = and_type;
  new_type = and_type;
  len = more;
  is_init = is_init;
  has_empty = false;
  mutex = mutex;
  cond = cond;
  ext_Q = false;
  has_ext_Q = false;
  allocated = and_type;
}

-- memory at an address, and a map that takes the pair
abbrev pub granted : ℕ → Answers
granted address = record { address = address; has_map = true; inserted = true }

module _ (address thread father : ℕ) (mutex cond : ℕ) (s : Store) where
  new_node :
      (kind : NodeType)
      → address ≢ 0
      → create_kind (granted address) thread father none false mutex cond kind s
        ≡ ok (
          (address, none),
          update address (some (new_and thread father (bool_of_type kind) mutex cond)) s,
        )
  unfolding create_kind create import_slots set_fathers_of new_and
  new_node kind h = rw (ne→== address 0 h) refl

  -- With no children, `is_init` false, memory and a map that takes the pair, and_node_create,
  -- pal_node_create and leaf_node_create all make a node of type AND, and for PAL and LEAF its
  -- `is_init` is true: the two arguments reach node_create in each other's place.
  pub create-new_and :
      address ≢ 0
      → (and_node_create (granted address) thread father none false mutex cond s
          ≡ ok ((address, none), update address (some (new_and thread father false mutex cond)) s))
        × (pal_node_create (granted address) thread father none false mutex cond s
            ≡ ok ((address, none), update address (some (new_and thread father true mutex cond)) s))
        × (leaf_node_create (granted address) thread father none false mutex cond s
            ≡ ok ((address, none), update address (some (new_and thread father true mutex cond)) s))
  unfolding and_node_create pal_node_create leaf_node_create
  create-new_and h = (new_node and_type h, new_node pal_type h, new_node leaf_type h)

-- What node_create hands on: no value; or a node of the type asked for; or NULL in a store that has
-- no node at NULL.
Handed : NodeType → Run ((ℕ × Option Childs) × Store) → Type 0
Handed type r =
    (x : (ℕ × Option Childs) × Store)
    → r ≡ ok x
    → ((x.1 x.0.0 ≡ none) ⊎ ((n : Node) × (x.1 x.0.0 ≡ some n) × (n.allocated ≡ type)))

Handed-lift :
    {A : Type 0} (type : NodeType) (r : Run A) (s : Store)
    (k : A × Store → Run ((ℕ × Option Childs) × Store))
    → ((a : A) → Handed type (k (a, s)))
    → Handed type (Base.◌>>=◌ (Base.◌>>=◌ r (λ a. ok (a, s))) k)
unfolding Handed
Handed-lift type (ok a) s k h x e = h a x e
Handed-lift type fault s k h x e = absurd cc
Handed-lift type (exit n) s k h x e = absurd cc
Handed-lift type out_of_fuel s k h x e = absurd cc

abbrev value : {A : Type 0} → A → Run A → A
value d (ok a) = a
value d fault = d
value d (exit n) = d
value d out_of_fuel = d

Handed-ok :
    (type : NodeType) (q : ℕ) (l : Option Childs) (s : Store)
    → ((s q ≡ none) ⊎ ((n : Node) × (s q ≡ some n) × (n.allocated ≡ type)))
    → Handed type (ok ((q, l), s))
unfolding Handed
Handed-ok type q l s h x e =
    subst (λ y. (y.1 y.0.0 ≡ none) ⊎ ((n : Node) × (y.1 y.0.0 ≡ some n) × (n.allocated ≡ type)))
      (ap (value ((q, l), s)) e) h

Handed-exit : (type : NodeType) (n : ℕ) → Handed type (exit n)
unfolding Handed
Handed-exit type n x e = absurd cc

module _ (thread father : ℕ) (childs : Option Childs) (mutex cond : ℕ) (s : Store)
    (e : s 0 ≡ none) where
  create-Handed :
      (address : ℕ) (has_map inserted : Bool) (type is_init : Bool)
      → Handed (type_of_bool type) (
          create
            (record { address = address; has_map = has_map; inserted = inserted })
            thread
            father
            childs
            (type_of_bool type)
            is_init
            mutex
            cond
            s)
  unfolding create
  create-Handed zero has_map inserted false is_init = Handed-ok and_type 0 childs s (inl e)
  create-Handed zero has_map inserted true is_init = Handed-ok pal_type 0 childs s (inl e)
  create-Handed (suc a) false inserted false is_init = rw (ne→== (suc a) 0 (λ z. omega arith)) (
      Handed-lift and_type (import_slots childs) s _ λ own.
        Handed-ok and_type 0 childs _ (inl (update-other (suc a) 0 _ s (λ z. omega arith) ∙ e)))
  create-Handed (suc a) false inserted true is_init = rw (ne→== (suc a) 0 (λ z. omega arith)) (
      Handed-lift pal_type (import_slots childs) s _ λ own.
        Handed-ok pal_type 0 childs _ (inl (update-other (suc a) 0 _ s (λ z. omega arith) ∙ e)))
  create-Handed (suc a) true false false is_init =
      rw (ne→== (suc a) 0 (λ z. omega arith))
        (Handed-lift and_type (import_slots childs) s _ λ own. Handed-exit and_type 134)
  create-Handed (suc a) true false true is_init =
      rw (ne→== (suc a) 0 (λ z. omega arith))
        (Handed-lift pal_type (import_slots childs) s _ λ own. Handed-exit pal_type 134)
  create-Handed (suc a) true true false is_init = rw (ne→== (suc a) 0 (λ z. omega arith)) (
      Handed-lift and_type (import_slots childs) s _ λ own.
        Handed-lift and_type (set_fathers_of (suc a) childs) _ _
          λ left. Handed-ok and_type (suc a) left _ (inr (_, update-same (suc a) (some _) s, refl)))
  create-Handed (suc a) true true true is_init = rw (ne→== (suc a) 0 (λ z. omega arith)) (
      Handed-lift pal_type (import_slots childs) s _ λ own.
        Handed-lift pal_type (set_fathers_of (suc a) childs) _ _
          λ left. Handed-ok pal_type (suc a) left _ (inr (_, update-same (suc a) (some _) s, refl)))

-- what reads the new node as a PRJ
module _ {B : Type 0} (type : Bool) where
  After : (((ℕ × Option Childs) × Store) → Run B) → Type 0
  After k =
      (x : (ℕ × Option Childs) × Store)
      → ((x.1 x.0.0 ≡ none)
          ⊎ ((n : Node) × (x.1 x.0.0 ≡ some n) × (n.allocated ≡ type_of_bool type)))
      → NotOk (k x)

  NotOk-Handed :
      (c : Run ((ℕ × Option Childs) × Store)) (k : ((ℕ × Option Childs) × Store) → Run B)
      → Handed (type_of_bool type) c
      → After k
      → NotOk (Base.◌>>=◌ c k)
  unfolding Handed After NotOk
  NotOk-Handed (ok x) k h f = f x (h x refl)
  NotOk-Handed fault k h f = λ b e. cc
  NotOk-Handed (exit n) k h f = λ b e. cc
  NotOk-Handed out_of_fuel k h f = λ b e. cc

no_prj : (b : Bool) → same_type (type_of_bool b) prj_type ≡ false
no_prj false = refl
no_prj true = refl

fault-NotOk : {A : Type 0} {r : Run A} → r ≡ fault → NotOk r
unfolding NotOk
fault-NotOk e a e' = cc

-- `ret->ext_Q = true` of a node that is no PRJ
write_ext :
    (type : Bool) (r : ℕ × Option Childs) (s : Store)
    → ((s r.0 ≡ none) ⊎ ((n : Node) × (s r.0 ≡ some n) × (n.allocated ≡ type_of_bool type)))
    → Base.◌>>=◌ (load r.0 s) (λ q.
      (if same_type q.0.allocated prj_type
          then (do store r.0 (record q.0 { ext_Q = true }); pure r)
          else λ s'. fault)
        q.1)
      ≡ fault
write_ext type r s (inl e) = rw (load-none s r.0 e) refl
write_ext type r s (inr (n, at_r, a)) =
    bind-ok _ (load-some s r.0 at_r)
    ∙ ap (λ b. (if b then (do store r.0 (record n { ext_Q = true }); pure r) else λ s'. fault) s)
        (ap (λ t. same_type t prj_type) a ∙ no_prj type)

-- In a store with no node at NULL, prj_node_create never returns a value, whatever the map and the
-- allocator answer: a node that is created has been
-- allocated as an AND or a PAL, so that `ext_Q` is written behind it.
pub prj_node_create-NotOk :
    (ans : Answers) (thread father : ℕ) (childs : Option Childs) (is_init : Bool) (mutex cond : ℕ)
    (s : Store)
    → s 0 ≡ none
    → (r : (ℕ × Option Childs) × Store)
    → prj_node_create ans thread father childs is_init mutex cond s ≢ ok r
unfolding prj_node_create create_kind NotOk After
prj_node_create-NotOk ans thread father childs is_init mutex cond s e =
    NotOk-Handed is_init
      (create ans thread father childs (type_of_bool is_init) (bool_of_type prj_type) mutex cond s)
      _
      (create-Handed thread father childs mutex cond s e ans.address ans.has_map ans.inserted
        is_init (bool_of_type prj_type))
      λ x h. fault-NotOk (write_ext is_init x.0 x.1 h)
