-- ===== src/Scheduler/Keeps/Turn.antt =====
-- What leaf_node_execute, keep_node_execute and alw_node_execute of node.c keep.
use lib_msvl.Base.{
  ℕ, zero, suc, Option, none, some, List, [], ◌∷◌, ◌≡◌, refl, ◌==◌, length, Run, ok,
}
use lib_msvl.Node.Store.{Childs, len_code}
use lib_msvl.Node.Store.{modify}
use lib_msvl.Node.Children.{slots_of}
use lib_msvl.Scheduler.World.{World, Env, W, undefined, diverges, on_nodes}
use lib_msvl.Scheduler.Handshake.{
  wait_init, handshake, leaf_execute, keep_execute, alw_execute, hand_over, append_childs,
  reset_len,
}
use lib_msvl.Scheduler.Keeps.Chains.{
  Ends, Stable, Ends-ok, Ends-fault, Ends-out_of_fuel, Ends-bind, Ends-if, Ends-or_false, on_node,
  ask, then_node,
}

module _ (env : Env) (P : World → Type 0) (st : Stable env P) where
  pub wait_init-Ends : (this : ℕ) (w : World) → P w → Ends P (wait_init env this w)
  unfolding wait_init
  wait_init-Ends this w p = then_node env P st _ w _ p λ n v q.
      Ends-if P n.is_init _ _ v (Ends-ok P tt v q) (by_arrival v q (env.arrive n.thread v) refl)
    where
      by_arrival :
          {t : ℕ} (v : World)
          → P v
          → (o : Option World) → env.arrive t v ≡ o
          → Ends P
              (elim o as (λ _. Run (Unit {0} × World)) [ none ↦ diverges v | some u ↦ ok (tt, u) ])
      by_arrival v q none e = Ends-out_of_fuel P _
      by_arrival {t} v q (some u) e = Ends-ok P tt u (st.arrive t v u q e)

  pub handshake-Ends : (this : ℕ) (w : World) → P w → Ends P (handshake env this w)
  unfolding handshake
  handshake-Ends this w p =
      Ends-bind P _ _ (wait_init-Ends this w p)
        λ a v q. then_node env P st _ v _ q λ n u r. st.turn n.thread u r

  pub leaf_execute-Ends : (this : ℕ) (w : World) → P w → Ends P (leaf_execute env this w)
  unfolding leaf_execute
  leaf_execute-Ends this w p = Ends-bind P _ _ (ask env P st _ w p) λ exited w1 p1.
      Ends-bind P _ _ (Ends-or_false P exited w1 p1) λ stop w2 p2.
        then_node env P st _ w2 _ p2 λ n w3 p3.
          Ends-if P stop _ _ w3 (Ends-ok P tt w3 p3) (
            Ends-if P (len_code n.len == 0) _ _ w3 (handshake-Ends this w3 p3) (Ends-ok P tt w3 p3))

  pub hand_over-Ends :
      (ps : List ℕ) (father : ℕ) (w : World) → P w → Ends P (hand_over env ps father w)
  unfolding hand_over
  hand_over-Ends [] father w p = Ends-ok P tt w p
  hand_over-Ends (q ∷ ps) father w p =
      then_node env P st _ w _ p λ a v r. hand_over-Ends ps father v r

  pub keep_execute-Ends :
      (depth this : ℕ) (w : World) → P w → Ends P (keep_execute env depth this w)
  unfolding keep_execute
  keep_execute-Ends depth this w p = Ends-bind P _ _ (ask env P st _ w p) λ exited w1 p1.
      Ends-bind P _ _ (Ends-or_false P exited w1 p1) λ stop w2 p2.
        Ends-if P stop _ _ w2 (Ends-ok P tt w2 p2) (
          Ends-bind P _ _ (handshake-Ends this w2 p2) λ a w3 p3.
            then_node env P st _ w3 _ p3 λ n w4 p4.
              Ends-bind P _ _ (hand_over-Ends _ _ w4 p4) λ b w5 p5.
                then_node env P st _ _ _ (st.queue w5 _ p5) λ c w6 p6. on_node env P st _ w6 p6)

  pub append_childs-Ends :
      (ps : List ℕ) (father : ℕ) (w : World) → P w → Ends P (append_childs env ps father w)
  unfolding append_childs
  append_childs-Ends [] father w p = Ends-ok P tt w p
  append_childs-Ends (q ∷ ps) father w p =
      then_node env P st _ w _ p λ a v r. append_childs-Ends ps father v r

  pub reset_len-Ends : (fuel temp : ℕ) (w : World) → P w → Ends P (reset_len env fuel temp w)
  unfolding reset_len
  reset_len-Ends zero temp w p = Ends-out_of_fuel P _
  reset_len-Ends (suc fuel) temp w p = Ends-if P (temp == 0) _ _ w (Ends-ok P tt w p) (
      then_node env P st _ w _ p λ n v q.
        Ends-if P (len_code n.len == 0) _ _ v (Ends-ok P tt v q)
          (then_node env P st _ v _ q λ a u r. reset_len-Ends fuel n.father u r))

  pub alw_execute-Ends : (depth this : ℕ) (w : World) → P w → Ends P (alw_execute env depth this w)
  unfolding alw_execute
  alw_execute-Ends depth this w p = Ends-bind P _ _ (ask env P st _ w p) λ exited w1 p1.
      Ends-bind P _ _ (Ends-or_false P exited w1 p1) λ stop w2 p2.
        Ends-if P stop _ _ w2 (Ends-ok P tt w2 p2) (
          Ends-bind P _ _ (handshake-Ends this w2 p2) λ a w3 p3.
            then_node env P st _ w3 _ p3 λ n w4 p4.
              Ends-bind P _ _ (hand_over-Ends _ _ w4 p4) λ b w5 p5.
                Ends-bind P _ _ (append_childs-Ends _ _ w5 p5) λ c w6 p6.
                  Ends-bind P _ _
                    (Ends-if P (length (slots_of n.childs) == 0) _ _ w6 (Ends-ok P tt w6 p6)
                      (reset_len-Ends depth n.father w6 p6))
                    λ d w7 p7. by_array this n.childs w7 p7)
    where
      by_array :
          (this : ℕ) (o : Option Childs) (v : World)
          → P v
          → Ends P (
              (elim o as (λ _. W (Unit {0})) [
                | none ↦ on_nodes (modify (λ m. record m { childs = none }) this)
                | some _ ↦ undefined
              ])
                v)
      by_array this none v q = on_node env P st _ v q
      by_array this (some c) v q = Ends-fault P _
