-- ===== src/Predecessor/KeepingCheck.antt =====
-- What isCorrectAndExit of function.cpp on the objects keeps.
use lib_msvl.Base.{
  ℕ, zero, suc, ◌+◌, Bool, true, false, not, ◌&&◌, List, [], ◌∷◌, ◌==◌, if◌then◌else◌, length,
}
use lib_msvl.Base.Stateful.{Keeps, returns, faults, runs_out, Keeps-bind, Keeps-if, return, ◌>>◌}
use lib_msvl.Node.Store.{
  NodeType, and_type, pal_type, prj_type, keep_type, alw_type, leaf_type, root_type, len_code,
}
use lib_msvl.Predecessor.Check.{is_empty_leaf, is_leaf}
use lib_msvl.Predecessor.Objects.{Heap, H}
use lib_msvl.Predecessor.OnHeap.{
  delete_node, erase_child, and_childs, and_correct, pal_childs, pal_correct, prj_childs,
  prj_correct_of, leaf_correct, correct_by, is_correct,
}
use lib_msvl.Predecessor.Keeping.{
  Untouched, load-Keeps, modify_node-Keeps, childs_of-Keeps, delete_node-Keeps, exited_at-Keeps,
  erase_child-Keeps, verdict-Keeps,
}

module _ (P : Heap → Type 0) (u : Untouched P) where
  module _ (depth : ℕ) (check : ℕ → H Bool)
      (checks : (p : ℕ) (h : Heap) → P h → Keeps P (check p h)) where
    delete_child-Keeps :
        (b : Bool) (this p i : ℕ) (h : Heap)
        → P h
        → Keeps P ((if b then (do delete_node depth p; erase_child this i) else return tt) h)
    delete_child-Keeps b this p i h k =
        Keeps-if P b _ _ h
          (Keeps-bind P _ _ (delete_node-Keeps P u depth p h k)
            λ a h' k'. erase_child-Keeps P u this i h' k')
          (returns tt h k)

    and_childs-Keeps :
        (this : ℕ) (ps : List ℕ) (i empty_num none_num : ℕ) (h : Heap)
        → P h
        → Keeps P (and_childs depth check this ps i empty_num none_num h)
    unfolding and_childs
    and_childs-Keeps this [] i empty_num none_num h k = returns _ h k
    and_childs-Keeps this (p ∷ ps) i empty_num none_num h k =
        Keeps-bind P _ _ (checks p h k) λ exited h1 k1.
          Keeps-bind P _ _ (load-Keeps P u p h1 k1) λ o h2 k2.
            Keeps-bind P _ _
              (Keeps-if P (is_empty_leaf o.node) _ _ h2 (modify_node-Keeps P u _ this h2 k2)
                (returns tt h2 k2))
              λ a h3 k3.
                Keeps-bind P _ _
                  (delete_child-Keeps (exited && is_empty_leaf o.node) this p i h3 k3)
                  λ b h4 k4. and_childs-Keeps this ps _ _ _ h4 k4

    and_correct-Keeps : (this : ℕ) (h : Heap) → P h → Keeps P (and_correct depth check this h)
    unfolding and_correct
    and_correct-Keeps this h k = Keeps-bind P _ _ (childs_of-Keeps P u this h k) λ ps h1 k1.
        Keeps-bind P _ _ (and_childs-Keeps this ps 0 0 0 h1 k1) λ c h2 k2.
          Keeps-bind P _ _ (load-Keeps P u this h2 k2) λ o h3 k3.
            Keeps-if P (not o.node.has_empty) _ _ h3 (verdict-Keeps P u _ false this h3 k3) (
              Keeps-if P (c.0 + c.1 == length ps) _ _ h3 (verdict-Keeps P u _ true this h3 k3)
                (returns false h3 k3))

    pal_childs-Keeps :
        (this : ℕ) (ps : List ℕ) (i empty_num : ℕ) (h : Heap)
        → P h
        → Keeps P (pal_childs depth check this ps i empty_num h)
    unfolding pal_childs
    pal_childs-Keeps this [] i empty_num h k = returns _ h k
    pal_childs-Keeps this (p ∷ ps) i empty_num h k = Keeps-bind P _ _ (checks p h k) λ ended h1 k1.
        Keeps-bind P _ _ (load-Keeps P u p h1 k1) λ o h2 k2.
          Keeps-bind P _ _
            (Keeps-if P (ended && is_leaf o.node) _ _ h2
              (Keeps-bind P _ _
                (Keeps-if P (len_code o.node.len == 1) _ _ h2 (modify_node-Keeps P u _ this h2 k2)
                  (returns tt h2 k2))
                λ a h3 k3. delete_child-Keeps true this p i h3 k3)
              (returns tt h2 k2))
            λ b h4 k4. pal_childs-Keeps this ps _ _ h4 k4

    pal_correct-Keeps : (this : ℕ) (h : Heap) → P h → Keeps P (pal_correct depth check this h)
    unfolding pal_correct
    pal_correct-Keeps this h k = Keeps-bind P _ _ (childs_of-Keeps P u this h k) λ ps h1 k1.
        Keeps-bind P _ _ (pal_childs-Keeps this ps 0 0 h1 k1) λ c h2 k2.
          Keeps-bind P _ _ (load-Keeps P u this h2 k2) λ o h3 k3.
            Keeps-if P (len_code o.node.len == 1) _ _ h3 (returns true h3 k3) (
              Keeps-if P (c == length ps) _ _ h3 (verdict-Keeps P u _ true this h3 k3)
                (returns false h3 k3))

  prj_childs-Keeps : (ps : List ℕ) (num : ℕ) (h : Heap) → P h → Keeps P (prj_childs ps num h)
  unfolding prj_childs
  prj_childs-Keeps [] num h k = returns num h k
  prj_childs-Keeps (p ∷ ps) num h k =
      Keeps-bind P _ _ (load-Keeps P u p h k) λ o h' k'. prj_childs-Keeps ps _ h' k'

  prj_correct-Keeps : (this : ℕ) (ps : List ℕ) (h : Heap) → P h → Keeps P (prj_correct_of this ps h)
  unfolding prj_correct_of
  prj_correct-Keeps this [] h k = faults
  prj_correct-Keeps this (q ∷ ps) h k = Keeps-bind P _ _ (exited_at-Keeps P u q h k) λ first h1 k1.
      Keeps-bind P _ _ (prj_childs-Keeps ps _ h1 k1) λ num h2 k2.
        Keeps-bind P _ _ (load-Keeps P u this h2 k2) λ o h3 k3.
          Keeps-if P (len_code o.node.len == 1) _ _ h3 (returns true h3 k3) (
            Keeps-if P (num == length (q ∷ ps)) _ _ h3 (verdict-Keeps P u _ true this h3 k3)
              (returns false h3 k3))

  correct_by-Keeps :
      (depth : ℕ) (check : ℕ → H Bool)
      → ((p : ℕ) (h : Heap) → P h → Keeps P (check p h))
      → (type : NodeType) (this : ℕ) (h : Heap) → P h
      → Keeps P (correct_by depth check type this h)
  unfolding correct_by leaf_correct
  correct_by-Keeps depth check checks and_type this h k =
      and_correct-Keeps depth check checks this h k
  correct_by-Keeps depth check checks pal_type this h k =
      pal_correct-Keeps depth check checks this h k
  correct_by-Keeps depth check checks prj_type this h k =
      Keeps-bind P _ _ (childs_of-Keeps P u this h k) λ ps h' k'. prj_correct-Keeps this ps h' k'
  correct_by-Keeps depth check checks keep_type this h k = exited_at-Keeps P u this h k
  correct_by-Keeps depth check checks alw_type this h k = exited_at-Keeps P u this h k
  correct_by-Keeps depth check checks leaf_type this h k =
      Keeps-bind P _ _ (load-Keeps P u this h k) λ o h' k'. returns _ h' k'
  correct_by-Keeps depth check checks root_type this h k = faults

  pub is_correct-Keeps : (depth this : ℕ) (h : Heap) → P h → Keeps P (is_correct depth this h)
  unfolding is_correct
  is_correct-Keeps zero this h k = runs_out
  is_correct-Keeps (suc depth) this h k = Keeps-bind P _ _ (load-Keeps P u this h k) λ o h' k'.
      correct_by-Keeps depth (is_correct depth) (is_correct-Keeps depth) o.node.type this h' k'
