-- ===== src/Scheduler/Keeps/Execute.antt =====
-- What node_execute of node.c keeps.
use lib_msvl.Base.{ℕ, zero, suc, ◌+◌, Bool, true, false, ◌==◌, leb, length}
use lib_msvl.Node.Store.{
  NodeType, and_type, pal_type, prj_type, keep_type, alw_type, leaf_type, root_type, len_code,
}
use lib_msvl.Node.Children.{slots_of}
use lib_msvl.Scheduler.World.{World, Env, W}
use lib_msvl.Scheduler.Renew.{get_new_node, changes}
use lib_msvl.Scheduler.Execute.{
  slots, set_slot, each_child, and_execute, pal_execute, run_renewed, set_ext_Q, erase_second,
  skip_empty, execute_first, prj_execute, dispatch_execute, execute,
}
use lib_msvl.Scheduler.Keeps.Turn.{leaf_execute-Ends, keep_execute-Ends, alw_execute-Ends}
use lib_msvl.Scheduler.Keeps.Chains.{
  Ends, Stable, Ends-ok, Ends-fault, Ends-exit, Ends-out_of_fuel, Ends-bind, Ends-if, Ends-or_false,
  Ends-slot_of, on_node, ask, then_node,
}

module _ (env : Env) (P : World → Type 0) (st : Stable env P) where
  pub get_new_node-Ends :
      (depth node : ℕ) (w : World) → P w → Ends P (get_new_node env depth node w)
  unfolding get_new_node
  get_new_node-Ends depth node w p =
      then_node env P st _ w _ p
        λ n v q. Ends-if P env.erases _ _ v (on_node env P st _ v q) (Ends-exit P _ 134)

  pub changes-Ends : (node : ℕ) (w : World) → P w → Ends P (changes node w)
  unfolding changes
  changes-Ends node w p = then_node env P st _ w _ p λ n v q. Ends-ok P _ v q

  pub slots-Ends : (this : ℕ) (w : World) → P w → Ends P (slots this w)
  unfolding slots
  slots-Ends this w p = then_node env P st _ w _ p λ n v q. Ends-ok P _ v q

  pub set_slot-Ends : (this i q : ℕ) (w : World) → P w → Ends P (set_slot this i q w)
  unfolding set_slot
  set_slot-Ends this i q w p = on_node env P st _ w p

  module _ (exec : ℕ → W (Unit {0})) (run : (q : ℕ) (w : World) → P w → Ends P (exec q w)) where
    each_child-Ends :
        (fuel this i : ℕ) (w : World) → P w → Ends P (each_child env exec fuel this i w)
    unfolding each_child
    each_child-Ends zero this i w p = Ends-out_of_fuel P _
    each_child-Ends (suc fuel) this i w p = Ends-bind P _ _ (slots-Ends this w p) λ ps w1 p1.
        Ends-if P (leb (length ps) i) _ _ w1 (Ends-ok P tt w1 p1) (
          Ends-bind P _ _ (Ends-slot_of P ps i w1 p1) λ child w2 p2.
            Ends-bind P _ _ (run child w2 p2) λ a w3 p3.
              Ends-bind P _ _ (changes-Ends child w3 p3) λ changed w4 p4.
                Ends-if P changed _ _ w4
                  (Ends-bind P _ _ (get_new_node-Ends fuel child w4 p4) λ new w5 p5.
                    Ends-bind P _ _ (set_slot-Ends this i new w5 p5)
                      λ b w6 p6. each_child-Ends fuel this i w6 p6)
                  (each_child-Ends fuel this (i + 1) w4 p4))

    and_execute-Ends : (fuel this : ℕ) (w : World) → P w → Ends P (and_execute env exec fuel this w)
    unfolding and_execute
    and_execute-Ends fuel this w p = Ends-bind P _ _ (ask env P st _ w p) λ done w1 p1.
        Ends-bind P _ _ (Ends-or_false P done w1 p1) λ stop w2 p2.
          Ends-if P stop _ _ w2 (on_node env P st _ w2 p2) (each_child-Ends fuel this 0 w2 p2)

    pal_execute-Ends : (fuel this : ℕ) (w : World) → P w → Ends P (pal_execute env exec fuel this w)
    unfolding pal_execute
    pal_execute-Ends fuel this w p = Ends-bind P _ _ (ask env P st _ w p) λ done w1 p1.
        Ends-bind P _ _ (Ends-or_false P done w1 p1) λ stop w2 p2.
          Ends-if P stop _ _ w2 (on_node env P st _ w2 p2) (
            Ends-bind P _ _ (slots-Ends this w2 p2) λ ps w3 p3.
              Ends-if P (length ps == 0) _ _ w3 (Ends-fault P _)
                (each_child-Ends fuel this 0 w3 p3))

    run_renewed-Ends : (fuel n : ℕ) (w : World) → P w → Ends P (run_renewed env exec fuel n w)
    unfolding run_renewed
    run_renewed-Ends zero n w p = Ends-out_of_fuel P _
    run_renewed-Ends (suc fuel) n w p = Ends-bind P _ _ (run n w p) λ a w1 p1.
        Ends-bind P _ _ (changes-Ends n w1 p1) λ changed w2 p2.
          Ends-if P changed _ _ w2
            (Ends-bind P _ _ (get_new_node-Ends fuel n w2 p2)
              λ new w3 p3. run_renewed-Ends fuel new w3 p3)
            (Ends-ok P n w2 p2)

    set_ext_Q-Ends : (b : Bool) (this : ℕ) (w : World) → P w → Ends P (set_ext_Q env exec b this w)
    unfolding set_ext_Q
    set_ext_Q-Ends b this w p = on_node env P st _ w p

    erase_second-Ends :
        (fuel this : ℕ) (w : World) → P w → Ends P (erase_second env exec fuel this w)
    unfolding erase_second
    erase_second-Ends fuel this w p = Ends-bind P _ _ (slots-Ends this w p) λ ps w1 p1.
        Ends-bind P _ _ (Ends-slot_of P ps 1 w1 p1)
          λ old w2 p2. then_node env P st _ w2 _ p2 λ a w3 p3. on_node env P st _ w3 p3

    skip_empty-Ends :
        (fuel this n1 : ℕ) (w : World) → P w → Ends P (skip_empty env exec fuel this n1 w)
    unfolding skip_empty
    skip_empty-Ends zero this n1 w p = Ends-out_of_fuel P _
    skip_empty-Ends (suc fuel) this n1 w p = then_node env P st _ w _ p λ n w1 p1.
        Ends-if P (len_code n.len == 1) _ _ w1
          (Ends-bind P _ _ (set_ext_Q-Ends true this w1 p1) λ a w2 p2.
            then_node env P st _ w2 _ p2 λ b w3 p3.
              Ends-bind P _ _ (erase_second-Ends fuel this w3 p3) λ c w4 p4.
                Ends-bind P _ _ (slots-Ends this w4 p4) λ ps w5 p5.
                  Ends-if P (length ps == 1) _ _ w5 (Ends-ok P tt w5 p5) (
                    Ends-bind P _ _ (Ends-slot_of P ps 1 w5 p5) λ next w6 p6.
                      Ends-bind P _ _ (run_renewed-Ends fuel next w6 p6)
                        λ renewed w7 p7. skip_empty-Ends fuel this renewed w7 p7))
          (Ends-ok P tt w1 p1)

    execute_first-Ends :
        (fuel this : ℕ) (w : World) → P w → Ends P (execute_first env exec fuel this w)
    unfolding execute_first
    execute_first-Ends fuel this w p = then_node env P st _ w _ p λ a w1 p1.
        then_node env P st _ w1 _ p1 λ n w2 p2.
          Ends-bind P _ _ (Ends-slot_of P (slots_of n.childs) 0 w2 p2) λ n0 w3 p3.
            Ends-if P n.ext_Q _ _ w3
              (Ends-bind P _ _ (ask env P st _ w3 p3) λ done w4 p4.
                Ends-if P done _ _ w4
                  (Ends-bind P _ _ (run_renewed-Ends fuel n0 w4 p4)
                    λ b w5 p5. set_ext_Q-Ends false this w5 p5)
                  (Ends-ok P tt w4 p4))
              (Ends-ok P tt w3 p3)

    prj_execute-Ends : (fuel this : ℕ) (w : World) → P w → Ends P (prj_execute env exec fuel this w)
    unfolding prj_execute
    prj_execute-Ends fuel this w p = Ends-bind P _ _ (ask env P st _ w p) λ done w1 p1.
        Ends-bind P _ _ (Ends-or_false P done w1 p1) λ stop w2 p2.
          Ends-if P stop _ _ w2 (on_node env P st _ w2 p2) (
            Ends-bind P _ _ (slots-Ends this w2 p2) λ ps w3 p3.
              Ends-bind P _ _
                (Ends-if P (leb (length ps) 1) _ _ w3 (set_ext_Q-Ends true this w3 p3) (
                  Ends-bind P _ _ (Ends-slot_of P ps 1 w3 p3) λ first w4 p4.
                    Ends-bind P _ _ (run_renewed-Ends fuel first w4 p4)
                      λ n1 w5 p5. skip_empty-Ends fuel this n1 w5 p5))
                λ a w6 p6. execute_first-Ends fuel this w6 p6)

    dispatch_execute-Ends :
        (fuel : ℕ) (t : NodeType) (this : ℕ) (w : World)
        → P w
        → Ends P (dispatch_execute env exec fuel t this w)
    unfolding dispatch_execute
    dispatch_execute-Ends fuel and_type this w p = and_execute-Ends fuel this w p
    dispatch_execute-Ends fuel pal_type this w p = pal_execute-Ends fuel this w p
    dispatch_execute-Ends fuel prj_type this w p = prj_execute-Ends fuel this w p
    dispatch_execute-Ends fuel keep_type this w p = keep_execute-Ends env P st fuel this w p
    dispatch_execute-Ends fuel alw_type this w p = alw_execute-Ends env P st fuel this w p
    dispatch_execute-Ends fuel leaf_type this w p = leaf_execute-Ends env P st this w p
    dispatch_execute-Ends fuel root_type this w p = Ends-exit P _ 1

  pub execute-Ends : (fuel this : ℕ) (w : World) → P w → Ends P (execute env fuel this w)
  unfolding execute
  execute-Ends zero this w p = Ends-out_of_fuel P _
  execute-Ends (suc fuel) this w p = Ends-if P (this == 0) _ _ w (Ends-exit P _ 1) (
      then_node env P st _ w _ p
        λ n v q. dispatch_execute-Ends (execute env fuel) (execute-Ends fuel) fuel n.type this v q)
