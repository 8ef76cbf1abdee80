-- ===== src/Predecessor/KeepingRenewal.antt =====
-- What getNewNode of function.cpp and the climb to the fathers keep.
use lib_msvl.Base.{ℕ, zero, suc, Option, none, some, ◌==◌, if◌then◌else◌, Run, ok, exit}
use lib_msvl.Base.Stateful.{Keeps, returns, exits, runs_out, Keeps-bind, Keeps-if, Keeps-option}
use lib_msvl.Node.Store.{
  NodeType, and_type, pal_type, prj_type, keep_type, alw_type, leaf_type, root_type, len_code,
}
use lib_msvl.Predecessor.Objects.{Heap, Program}
use lib_msvl.Predecessor.Renewal.{
  Arguments, set_father_node, insert_key, finish_new, new_node_at, new_node_of, new_from, new_by,
  renewed_node,
}
use lib_msvl.Predecessor.Excute.{is_changed, climb_more}
use lib_msvl.Predecessor.Keeping.{
  Untouched, load-Keeps, store-Keeps, modify-Keeps, modify_node-Keeps, for_each-Keeps,
  erase_key-Keeps,
}

module _ (P : Heap → Type 0) (u : Untouched P) where
  pub set_father_node-Keeps :
      (father this : ℕ) (h : Heap) → P h → Keeps P (set_father_node father this h)
  unfolding set_father_node
  set_father_node-Keeps father this h k =
      Keeps-if P (this == father) _ _ h (exits 134) (modify-Keeps P u _ this h k)

  insert_key-Keeps : (thread p : ℕ) (h : Heap) → P h → Keeps P (insert_key thread p h)
  unfolding insert_key
  insert_key-Keeps thread p h k = by_key (h.thread_id_to_node thread)
    where
      by_key :
          (o : Option ℕ)
          → Keeps P (elim o as (λ _. Run (Unit {0} × Heap)) [
            | some _ ↦ exit 134
            | none ↦ ok (
              tt,
              record h {
                thread_id_to_node = λ t. if t == thread then some p else h.thread_id_to_node t;
              },
            )
          ])
      by_key none = returns tt _ (u.kept h _ _ _ _ k)
      by_key (some x) = exits 134

  both_none-Keeps : (p father : ℕ) (h : Heap) → P h → Keeps P (finish_new keep_type p father h)
  unfolding finish_new
  both_none-Keeps p father h k =
      Keeps-bind P _ _ (modify_node-Keeps P u _ p h k)
        λ a h' k'. modify_node-Keeps P u _ father h' k'

  finish_new-Keeps :
      (type : NodeType) (p father : ℕ) (h : Heap) → P h → Keeps P (finish_new type p father h)
  unfolding finish_new
  finish_new-Keeps keep_type p father h k = both_none-Keeps p father h k
  finish_new-Keeps alw_type p father h k = both_none-Keeps p father h k
  finish_new-Keeps and_type p father h k = returns tt h k
  finish_new-Keeps pal_type p father h k = returns tt h k
  finish_new-Keeps prj_type p father h k = returns tt h k
  finish_new-Keeps leaf_type p father h k = returns tt h k
  finish_new-Keeps root_type p father h k = returns tt h k

  module _ (prog : Program) where
    new_node_of-Keeps :
        (type : NodeType) (a : Arguments) (h : Heap) → P h → Keeps P (new_node_of prog type a h)
    unfolding new_node_of new_node_at
    new_node_of-Keeps type a h k = Keeps-option P (prog.new_node h) _ _ (exits 134) (λ p.
        Keeps-bind P _ _ (store-Keeps P u p _ h k) λ b h1 k1.
          Keeps-bind P _ _ (insert_key-Keeps a.thread p h1 k1) λ c h2 k2.
            Keeps-bind P _ _
              (for_each-Keeps P u (set_father_node p) a.childs h2 (set_father_node-Keeps p) k2)
              λ d h3 k3.
                Keeps-bind P _ _ (finish_new-Keeps type p a.father h3 k3)
                  λ e h4 k4. returns p h4 k4)

    new_from-Keeps :
        (type : NodeType) (node : ℕ) (h : Heap) → P h → Keeps P (new_from prog type node h)
    unfolding new_from
    new_from-Keeps type node h k = Keeps-bind P _ _ (load-Keeps P u node h k) λ o h1 k1.
        Keeps-bind P _ _ (new_node_of-Keeps type _ h1 k1) λ p h2 k2.
          Keeps-bind P _ _ (modify_node-Keeps P u _ node h2 k2) λ a h3 k3. returns p h3 k3

    new_by-Keeps : (type : NodeType) (node : ℕ) (h : Heap) → P h → Keeps P (new_by prog type node h)
    unfolding new_by
    new_by-Keeps leaf_type node h k =
        Keeps-bind P _ _ (modify-Keeps P u _ node h k)
          λ a h' k'. new_from-Keeps leaf_type node h' k'
    new_by-Keeps and_type node h k = new_from-Keeps and_type node h k
    new_by-Keeps pal_type node h k = new_from-Keeps pal_type node h k
    new_by-Keeps prj_type node h k = new_from-Keeps prj_type node h k
    new_by-Keeps keep_type node h k = new_from-Keeps keep_type node h k
    new_by-Keeps alw_type node h k = new_from-Keeps alw_type node h k
    new_by-Keeps root_type node h k = exits 0

    pub renewed_node-Keeps : (node : ℕ) (h : Heap) → P h → Keeps P (renewed_node prog node h)
    unfolding renewed_node
    renewed_node-Keeps node h k = Keeps-bind P _ _ (load-Keeps P u node h k) λ o h1 k1.
        Keeps-bind P _ _ (erase_key-Keeps P u o.node.thread h1 k1)
          λ a h2 k2. new_by-Keeps o.node.new_type node h2 k2

  pub is_changed-Keeps : (p : ℕ) (h : Heap) → P h → Keeps P (is_changed p h)
  unfolding is_changed
  is_changed-Keeps p h k = Keeps-bind P _ _ (load-Keeps P u p h k) λ o h' k'. returns _ h' k'

  pub climb_more-Keeps : (fuel temp : ℕ) (h : Heap) → P h → Keeps P (climb_more fuel temp h)
  unfolding climb_more
  climb_more-Keeps zero temp h k = runs_out
  climb_more-Keeps (suc fuel) temp h k = Keeps-if P (temp == 0) _ _ h (returns tt h k) (
      Keeps-bind P _ _ (load-Keeps P u temp h k) λ o h1 k1.
        Keeps-if P (len_code o.node.len == 0) _ _ h1 (returns tt h1 k1) (
          Keeps-bind P _ _ (modify_node-Keeps P u _ temp h1 k1)
            λ a h2 k2. climb_more-Keeps fuel o.father h2 k2))
