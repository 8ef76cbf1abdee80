-- ===== src/Predecessor/KeepingExcute.antt =====
-- What `excute` of the classes of function.cpp keeps.
use lib_msvl.Base.{
  ℕ, zero, suc, ◌+◌, Bool, true, false, not, ◌||◌, Option, none, some, ◌==◌, length, set, leb, Run,
  ok, out_of_fuel, ◌≡◌, refl,
}
use lib_msvl.Base.Stateful.{Keeps, returns, faults, runs_out, Keeps-bind, Keeps-if, ◌>>=◌, ◌>>◌}
use lib_msvl.Node.Store.{
  NodeType, and_type, pal_type, prj_type, keep_type, alw_type, leaf_type, root_type, len_code,
}
use lib_msvl.Predecessor.Objects.{Heap, Program, H, modify}
use lib_msvl.Predecessor.Renewal.{set_father_node, renewed_node}
use lib_msvl.Predecessor.Excute.{
  arrival, wait_is_init, give_part, switch_to, leaf_excute, keep_excute, alw_excute, excute_childs,
  and_excute, pal_excute, excute_child, mark_ext_Q, skip_ended, excute_q, prj_excute, excute_by,
  excute,
}
use lib_msvl.Predecessor.Keeping.{
  Untouched, load-Keeps, modify-Keeps, modify_node-Keeps, childs_of-Keeps, child_at-Keeps,
  or_false-Keeps, for_each-Keeps, delete_node-Keeps, exited_at-Keeps, erase_child-Keeps,
}
use lib_msvl.Predecessor.KeepingCheck.{is_correct-Keeps}
use lib_msvl.Predecessor.KeepingRenewal.{
  set_father_node-Keeps, renewed_node-Keeps, is_changed-Keeps, climb_more-Keeps,
}

-- The property is also kept by the threads, in their turns and in front of them.
pub record Steady (prog : Program) (P : Heap → Type 0) : Type 0 where
  pub untouched : Untouched P
  pub turns : (t : ℕ) (h : Heap) → P h → Keeps P (give_part prog t h)
  pub arrives : (t : ℕ) (h h' : Heap) → P h → prog.arrive t h ≡ some h' → P h'

module _ (prog : Program) (P : Heap → Type 0) (st : Steady prog P) where
  switch_to-Keeps : (this : ℕ) (h : Heap) → P h → Keeps P (switch_to prog this h)
  unfolding switch_to wait_is_init arrival
  switch_to-Keeps this h k =
      Keeps-bind P _ _
        (Keeps-bind P _ _ (load-Keeps P st.untouched this h k) λ o h1 k1.
          Keeps-if P o.node.is_init _ _ h1 (returns tt h1 k1)
            (by_arrival h1 k1 o.node.thread (prog.arrive o.node.thread h1) refl))
        λ a h2 k2.
          Keeps-bind P _ _ (load-Keeps P st.untouched this h2 k2)
            λ o h3 k3. st.turns o.node.thread h3 k3
    where
      by_arrival :
          (h : Heap)
          → P h
          → (t : ℕ) (o : Option Heap) → prog.arrive t h ≡ o
          → Keeps P (elim o as (λ _. Run (Unit {0} × Heap)) [
            | none ↦ out_of_fuel
            | some h' ↦ ok (tt, h')
          ])
      by_arrival h k t none e = runs_out
      by_arrival h k t (some h') e = returns tt h' (st.arrives t h h' k e)

  leaf_excute-Keeps : (this : ℕ) (h : Heap) → P h → Keeps P (leaf_excute prog this h)
  unfolding leaf_excute
  leaf_excute-Keeps this h k =
      Keeps-bind P _ _ (exited_at-Keeps P st.untouched this h k) λ exited h1 k1.
        Keeps-bind P _ _ (or_false-Keeps P st.untouched exited h1 k1) λ stop h2 k2.
          Keeps-bind P _ _ (load-Keeps P st.untouched this h2 k2) λ o h3 k3.
            Keeps-if P (stop || not (len_code o.node.len == 0)) _ _ h3 (returns tt h3 k3)
              (switch_to-Keeps this h3 k3)

  keep_excute-Keeps : (this : ℕ) (h : Heap) → P h → Keeps P (keep_excute prog this h)
  unfolding keep_excute
  keep_excute-Keeps this h k =
      Keeps-bind P _ _ (exited_at-Keeps P st.untouched this h k) λ exited h1 k1.
        Keeps-bind P _ _ (or_false-Keeps P st.untouched exited h1 k1) λ stop h2 k2.
          Keeps-if P stop _ _ h2 (returns tt h2 k2) (
            Keeps-bind P _ _ (switch_to-Keeps this h2 k2) λ a h3 k3.
              Keeps-bind P _ _ (load-Keeps P st.untouched this h3 k3) λ o h4 k4.
                Keeps-bind P _ _
                  (for_each-Keeps P st.untouched (set_father_node o.father) o.childs h4
                    (set_father_node-Keeps P st.untouched o.father) k4)
                  λ b h5 k5. modify-Keeps P st.untouched _ this _ (st.untouched.kept h5 _ _ _ _ k5))

  alw_excute-Keeps : (fuel this : ℕ) (h : Heap) → P h → Keeps P (alw_excute prog fuel this h)
  unfolding alw_excute
  alw_excute-Keeps fuel this h k =
      Keeps-bind P _ _ (exited_at-Keeps P st.untouched this h k) λ exited h1 k1.
        Keeps-bind P _ _ (or_false-Keeps P st.untouched exited h1 k1) λ stop h2 k2.
          Keeps-if P stop _ _ h2 (returns tt h2 k2) (
            Keeps-bind P _ _ (switch_to-Keeps this h2 k2) λ a h3 k3.
              Keeps-bind P _ _ (load-Keeps P st.untouched this h3 k3) λ o h4 k4.
                Keeps-bind P _ _
                  (for_each-Keeps P st.untouched (set_father_node o.father) o.childs h4
                    (set_father_node-Keeps P st.untouched o.father) k4)
                  λ b h5 k5.
                    Keeps-bind P _ _ (modify-Keeps P st.untouched _ o.father h5 k5) λ c h6 k6.
                      Keeps-bind P _ _
                        (Keeps-if P (length o.childs == 0) _ _ h6 (returns tt h6 k6)
                          (climb_more-Keeps P st.untouched fuel o.father h6 k6))
                        λ d h7 k7. modify-Keeps P st.untouched _ this h7 k7)

  module _ (run : ℕ → H (Unit {0})) (runs : (p : ℕ) (h : Heap) → P h → Keeps P (run p h)) where
    replace-Keeps :
        (this i child : ℕ) (rest : H (Unit {0})) (h : Heap)
        → ((h' : Heap) → P h' → Keeps P (rest h'))
        → P h
        → Keeps P (
            (do
              new ← renewed_node prog child
              modify (λ o. record o { childs = set o.childs i new }) this
              rest)
              h)
    replace-Keeps this i child rest h goes_on k =
        Keeps-bind P _ _ (renewed_node-Keeps P st.untouched prog child h k) λ new h1 k1.
          Keeps-bind P _ _ (modify-Keeps P st.untouched _ this h1 k1) λ a h2 k2. goes_on h2 k2

    excute_childs-Keeps :
        (fuel this i : ℕ) (h : Heap) → P h → Keeps P (excute_childs prog run fuel this i h)
    unfolding excute_childs
    excute_childs-Keeps zero this i h k = runs_out
    excute_childs-Keeps (suc fuel) this i h k =
        Keeps-bind P _ _ (childs_of-Keeps P st.untouched this h k) λ ps h1 k1.
          Keeps-if P (leb (length ps) i) _ _ h1 (returns tt h1 k1) (
            Keeps-bind P _ _ (child_at-Keeps P st.untouched ps i h1 k1) λ child h2 k2.
              Keeps-bind P _ _ (runs child h2 k2) λ a h3 k3.
                Keeps-bind P _ _ (is_changed-Keeps P st.untouched child h3 k3) λ changed h4 k4.
                  Keeps-if P changed _ _ h4
                    (replace-Keeps this i child (excute_childs prog run fuel this i) h4
                      (excute_childs-Keeps fuel this i) k4)
                    (excute_childs-Keeps fuel this (i + 1) h4 k4))

    and_excute-Keeps : (fuel this : ℕ) (h : Heap) → P h → Keeps P (and_excute prog run fuel this h)
    unfolding and_excute
    and_excute-Keeps fuel this h k =
        Keeps-bind P _ _ (is_correct-Keeps P st.untouched (suc fuel) this h k) λ ended h1 k1.
          Keeps-bind P _ _ (or_false-Keeps P st.untouched ended h1 k1) λ stop h2 k2.
            Keeps-if P stop _ _ h2 (modify_node-Keeps P st.untouched _ this h2 k2)
              (excute_childs-Keeps fuel this 0 h2 k2)

    excute_child-Keeps :
        (fuel this i : ℕ) (h : Heap) → P h → Keeps P (excute_child prog run fuel this i h)
    unfolding excute_child
    excute_child-Keeps zero this i h k = runs_out
    excute_child-Keeps (suc fuel) this i h k =
        Keeps-bind P _ _ (childs_of-Keeps P st.untouched this h k) λ ps h1 k1.
          Keeps-bind P _ _ (child_at-Keeps P st.untouched ps i h1 k1) λ child h2 k2.
            Keeps-bind P _ _ (runs child h2 k2) λ a h3 k3.
              Keeps-bind P _ _ (childs_of-Keeps P st.untouched this h3 k3) λ qs h4 k4.
                Keeps-bind P _ _ (child_at-Keeps P st.untouched qs i h4 k4) λ child' h5 k5.
                  Keeps-bind P _ _ (is_changed-Keeps P st.untouched child' h5 k5) λ changed h6 k6.
                    Keeps-if P changed _ _ h6
                      (replace-Keeps this i child' (excute_child prog run fuel this i) h6
                        (excute_child-Keeps fuel this i) k6)
                      (returns tt h6 k6)

    mark_ext_Q-Keeps :
        (b : Bool) (this : ℕ) (h : Heap) → P h → Keeps P (mark_ext_Q prog run b this h)
    unfolding mark_ext_Q
    mark_ext_Q-Keeps b this h k = modify-Keeps P st.untouched _ this h k

    skip_ended-Keeps : (fuel this : ℕ) (h : Heap) → P h → Keeps P (skip_ended prog run fuel this h)
    unfolding skip_ended
    skip_ended-Keeps zero this h k = runs_out
    skip_ended-Keeps (suc fuel) this h k =
        Keeps-bind P _ _ (childs_of-Keeps P st.untouched this h k) λ ps h1 k1.
          Keeps-bind P _ _ (child_at-Keeps P st.untouched ps 1 h1 k1) λ second h2 k2.
            Keeps-bind P _ _ (load-Keeps P st.untouched second h2 k2) λ o h3 k3.
              Keeps-if P (len_code o.node.len == 1) _ _ h3
                (Keeps-bind P _ _ (mark_ext_Q-Keeps true this h3 k3) λ a h4 k4.
                  Keeps-bind P _ _ (delete_node-Keeps P st.untouched fuel second h4 k4) λ b h5 k5.
                    Keeps-bind P _ _ (erase_child-Keeps P st.untouched this 1 h5 k5) λ c h6 k6.
                      Keeps-bind P _ _ (childs_of-Keeps P st.untouched this h6 k6) λ qs h7 k7.
                        Keeps-if P (length qs == 1) _ _ h7 (returns tt h7 k7) (
                          Keeps-bind P _ _ (excute_child-Keeps fuel this 1 h7 k7)
                            λ d h8 k8. skip_ended-Keeps fuel this h8 k8))
                (returns tt h3 k3)

    excute_q-Keeps : (fuel this : ℕ) (h : Heap) → P h → Keeps P (excute_q prog run fuel this h)
    unfolding excute_q
    excute_q-Keeps fuel this h k =
        Keeps-bind P _ _ (modify-Keeps P st.untouched _ this h k) λ a h1 k1.
          Keeps-bind P _ _ (load-Keeps P st.untouched this h1 k1) λ o h2 k2.
            Keeps-if P (not o.ext_Q) _ _ h2 (returns tt h2 k2) (
              Keeps-bind P _ _ (child_at-Keeps P st.untouched o.childs 0 h2 k2) λ first h3 k3.
                Keeps-bind P _ _ (is_correct-Keeps P st.untouched fuel first h3 k3) λ ended h4 k4.
                  Keeps-if P ended _ _ h4 (returns tt h4 k4) (
                    Keeps-bind P _ _ (excute_child-Keeps fuel this 0 h4 k4)
                      λ b h5 k5. mark_ext_Q-Keeps false this h5 k5))

    prj_excute-Keeps : (fuel this : ℕ) (h : Heap) → P h → Keeps P (prj_excute prog run fuel this h)
    unfolding prj_excute
    prj_excute-Keeps fuel this h k =
        Keeps-bind P _ _ (is_correct-Keeps P st.untouched (suc fuel) this h k) λ ended h1 k1.
          Keeps-bind P _ _ (or_false-Keeps P st.untouched ended h1 k1) λ stop h2 k2.
            Keeps-if P stop _ _ h2 (modify_node-Keeps P st.untouched _ this h2 k2) (
              Keeps-bind P _ _ (childs_of-Keeps P st.untouched this h2 k2) λ ps h3 k3.
                Keeps-bind P _ _
                  (Keeps-if P (leb (length ps) 1) _ _ h3 (mark_ext_Q-Keeps true this h3 k3) (
                    Keeps-bind P _ _ (excute_child-Keeps fuel this 1 h3 k3)
                      λ a h4 k4. skip_ended-Keeps fuel this h4 k4))
                  λ b h5 k5. excute_q-Keeps fuel this h5 k5)

    excute_by-Keeps :
        (fuel : ℕ) (type : NodeType) (this : ℕ) (h : Heap)
        → P h
        → Keeps P (excute_by prog run fuel type this h)
    unfolding excute_by pal_excute
    excute_by-Keeps fuel and_type this h k = and_excute-Keeps fuel this h k
    excute_by-Keeps fuel pal_type this h k = and_excute-Keeps fuel this h k
    excute_by-Keeps fuel prj_type this h k = prj_excute-Keeps fuel this h k
    excute_by-Keeps fuel keep_type this h k = keep_excute-Keeps this h k
    excute_by-Keeps fuel alw_type this h k = alw_excute-Keeps fuel this h k
    excute_by-Keeps fuel leaf_type this h k = leaf_excute-Keeps this h k
    excute_by-Keeps fuel root_type this h k = faults

  pub excute-Keeps : (fuel this : ℕ) (h : Heap) → P h → Keeps P (excute prog fuel this h)
  unfolding excute
  excute-Keeps zero this h k = runs_out
  excute-Keeps (suc fuel) this h k =
      Keeps-bind P _ _ (load-Keeps P st.untouched this h k) λ o h' k'.
        excute_by-Keeps (excute prog fuel) (excute-Keeps fuel) fuel o.node.type this h' k'
