-- ===== src/Scheduler/Keeps/Update.antt =====
-- What UpdateNode of msvl.c keeps.
use lib_msvl.Base.{ℕ, zero, suc, ◌+◌, not, ◌||◌, List, [], ◌∷◌, ◌==◌}
use lib_msvl.Node.Store.{same_type}
use lib_msvl.Scheduler.World.{World, Env}
use lib_msvl.Scheduler.Update.{index_of, renew, update_node}
use lib_msvl.Scheduler.Keeps.Chains.{
  Ends, Stable, Ends-ok, Ends-fault, Ends-out_of_fuel, Ends-bind, Ends-if, then_node,
}
use lib_msvl.Scheduler.Keeps.Execute.{
  get_new_node-Ends, changes-Ends, slots-Ends, set_slot-Ends, execute-Ends,
}

module _ (env : Env) (P : World → Type 0) (st : Stable env P) where
  index_of-Ends : (node i : ℕ) (ps : List ℕ) (w : World) → P w → Ends P (index_of node i ps w)
  unfolding index_of
  index_of-Ends node i [] w p = Ends-fault P _
  index_of-Ends node i (q ∷ ps) w p =
      Ends-if P (q == node) _ _ w (Ends-ok P i w p) (index_of-Ends node (i + 1) ps w p)

  renew-Ends : (fuel node i temp : ℕ) (w : World) → P w → Ends P (renew env fuel node i temp w)
  unfolding renew
  renew-Ends zero node i temp w p = Ends-out_of_fuel P _
  renew-Ends (suc fuel) node i temp w p =
      Ends-bind P _ _ (get_new_node-Ends env P st fuel temp w p) λ new w1 p1.
        then_node env P st _ w1 _ p1 λ father w2 p2.
          Ends-bind P _ _ (set_slot-Ends env P st father i new w2 p2) λ a w3 p3.
            Ends-bind P _ _ (execute-Ends env P st fuel new w3 p3) λ b w4 p4.
              then_node env P st _ w4 _ p4 λ n w5 p5. then_node env P st _ w5 _ p5 λ old w6 p6.
                Ends-if P (same_type n.type old.new_type) _ _ w6 (Ends-ok P tt w6 p6)
                  (renew-Ends fuel node i new w6 p6)

  pub update_node-Ends : (fuel node : ℕ) (w : World) → P w → Ends P (update_node env fuel node w)
  unfolding update_node
  update_node-Ends fuel node w p = Ends-if P (node == 0) _ _ w (Ends-ok P tt w p) (
      Ends-bind P _ _ (changes-Ends env P st node w p) λ changed w1 p1.
        Ends-if P (not changed || node == w1.thread_root) _ _ w1 (Ends-ok P tt w1 p1) (
          then_node env P st _ w1 _ p1 λ father w2 p2.
            Ends-bind P _ _ (slots-Ends env P st father w2 p2) λ ps w3 p3.
              Ends-bind P _ _ (index_of-Ends node 0 ps w3 p3)
                λ i w4 p4. renew-Ends fuel node i node w4 p4))
