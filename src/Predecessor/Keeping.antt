-- ===== src/Predecessor/Keeping.antt =====
-- What the operations of function.cpp on the objects keep: a property that the objects, the map,
-- the kept children and the calls of the destructor do not touch.
use lib_msvl.Base.{
  ℕ, zero, suc, Bool, true, false, Option, none, some, List, [], ◌∷◌, ◌==◌, get_elem?,
}
use lib_msvl.Base.Stateful.{
  Keeps, returns, faults, exits, runs_out, Keeps-bind, Keeps-if, Keeps-option, return, undefined,
  ◌>>◌,
}
use lib_msvl.Predecessor.Tree.{ThreadNode, Call}
use lib_msvl.Predecessor.Objects.{
  Object, Heap, H, load, store, modify, modify_node, childs_of, child_at, read_false, or_false,
}
use lib_msvl.Predecessor.OnHeap.{erase_key, for_each, delete_node, exited_at, erase_child}

pub record Untouched (P : Heap → Type 0) : Type 0 where
  pub kept :
      (h : Heap) (object : ℕ → Option Object) (map : ℕ → Option ℕ) (queue : List ℕ)
      (calls : List Call)
      → P h
      → P (record h {
        object = object;
        thread_id_to_node = map;
        keep_childs = queue;
        calls = calls;
      })

module _ (P : Heap → Type 0) (u : Untouched P) where
  pub load-Keeps : (p : ℕ) (h : Heap) → P h → Keeps P (load p h)
  unfolding load
  load-Keeps p h k = Keeps-option P (h.object p) _ _ faults (λ x. returns x h k)

  pub store-Keeps : (p : ℕ) (x : Option Object) (h : Heap) → P h → Keeps P (store p x h)
  unfolding store
  store-Keeps p x h k = returns tt _ (u.kept h _ _ _ _ k)

  pub modify-Keeps : (f : Object → Object) (p : ℕ) (h : Heap) → P h → Keeps P (modify f p h)
  unfolding modify
  modify-Keeps f p h k =
      Keeps-bind P _ _ (load-Keeps p h k) λ o h' k'. store-Keeps p (some (f o)) h' k'

  pub modify_node-Keeps :
      (f : ThreadNode → ThreadNode) (p : ℕ) (h : Heap) → P h → Keeps P (modify_node f p h)
  unfolding modify_node
  modify_node-Keeps f p h k = modify-Keeps _ p h k

  pub childs_of-Keeps : (p : ℕ) (h : Heap) → P h → Keeps P (childs_of p h)
  unfolding childs_of
  childs_of-Keeps p h k = Keeps-bind P _ _ (load-Keeps p h k) λ o h' k'. returns o.childs h' k'

  pub child_at-Keeps : (ps : List ℕ) (i : ℕ) (h : Heap) → P h → Keeps P (child_at ps i h)
  child_at-Keeps ps i h k = by_place (get_elem? ps i)
    where
      by_place :
          (o : Option ℕ)
          → Keeps P ((elim o as (λ _. H ℕ) [ none ↦ undefined | some p ↦ return p ]) h)
      by_place none = faults
      by_place (some p) = returns p h k

  pub or_false-Keeps : (b : Bool) (h : Heap) → P h → Keeps P (or_false b h)
  unfolding or_false read_false
  or_false-Keeps true h k = returns true h k
  or_false-Keeps false h k = Keeps-option P h.path_false _ _ faults (λ b. returns b h k)

  pub for_each-Keeps :
      (f : ℕ → H (Unit {0})) (ps : List ℕ) (h : Heap)
      → ((p : ℕ) (h' : Heap) → P h' → Keeps P (f p h'))
      → P h
      → Keeps P (for_each f ps h)
  unfolding for_each
  for_each-Keeps f [] h each k = returns tt h k
  for_each-Keeps f (p ∷ ps) h each k =
      Keeps-bind P _ _ (each p h k) λ a h' k'. for_each-Keeps f ps h' each k'

  pub erase_key-Keeps : (thread : ℕ) (h : Heap) → P h → Keeps P (erase_key thread h)
  unfolding erase_key
  erase_key-Keeps thread h k =
      Keeps-option P (h.thread_id_to_node thread) _ _ (exits 134)
        (λ x. returns tt _ (u.kept h _ _ _ _ k))

  pub delete_node-Keeps : (depth p : ℕ) (h : Heap) → P h → Keeps P (delete_node depth p h)
  unfolding delete_node
  delete_node-Keeps zero p h k = runs_out
  delete_node-Keeps (suc depth) p h k = Keeps-if P (p == 0) _ _ h (returns tt h k) (
      Keeps-bind P _ _ (load-Keeps p h k) λ o h1 k1.
        Keeps-bind P _ _
          (for_each-Keeps (delete_node depth) o.childs h1 (delete_node-Keeps depth) k1)
          λ a h2 k2.
            Keeps-bind P _ _ (erase_key-Keeps o.node.thread h2 k2)
              λ b h3 k3. returns tt _ (u.kept h3 _ _ _ _ k3))

  pub exited_at-Keeps : (p : ℕ) (h : Heap) → P h → Keeps P (exited_at p h)
  unfolding exited_at
  exited_at-Keeps p h k = Keeps-bind P _ _ (load-Keeps p h k) λ o h' k'. returns _ h' k'

  pub erase_child-Keeps : (this i : ℕ) (h : Heap) → P h → Keeps P (erase_child this i h)
  unfolding erase_child
  erase_child-Keeps this i h k = modify-Keeps _ this h k

  pub verdict-Keeps :
      (f : ThreadNode → ThreadNode) (b : Bool) (this : ℕ) (h : Heap)
      → P h
      → Keeps P ((do modify_node f this; return b) h)
  verdict-Keeps f b this h k =
      Keeps-bind P _ _ (modify_node-Keeps f this h k) λ a h' k'. returns b h' k'
