-- ===== src/Scheduler/Examples.antt =====
-- A root at address 1, a leaf at 2 whose thread is 7, and the theorems about the scheduling thread
-- at them. The threads pause at once.
use lib_msvl.Base.{
  ℕ, true, false, Option, none, some, List, [], ◌∷◌, ◌≡◌, ◌≢◌, refl, subst, ap, ◌⊎◌, inl, inr,
  arith, ok,
}
use lib_msvl.Node.Store.{
  Childs, load, Node, NodeType, NodeLength, and_type, leaf_type, more, empty, Store, update,
}
use lib_msvl.Node.Check.{thread_exited}
use lib_msvl.Node.Kinds.{granted}
use lib_msvl.Manager.Push.{Element}
use lib_msvl.Scheduler.World.{World, Slice, pauses, ends, keeps_on, Env, on_nodes}
use lib_msvl.Scheduler.Handshake.{leaf_execute}
use lib_msvl.Scheduler.Renew.{get_new_node}
use lib_msvl.Scheduler.Execute.{execute, dispatch_execute}
use lib_msvl.Scheduler.Drain.{manager_thread}
use lib_msvl.Scheduler.Endless.{Pushed, OnlyPush, manager_thread-Never}
use lib_msvl.Scheduler.Returns.{OwnTurn, execute-OwnTurn, leaf_execute_lem, manager_thread-ends}
use lib_msvl.Scheduler.Renewed.{renewed, get_new_node-Renewed}

abbrev a_node : NodeType → NodeType → NodeLength → Option Childs → Node
a_node type new_type len childs = record {
  thread = 7;
  father = 0;
  childs = childs;
  type = type;
  new_type = new_type;
  len = len;
  is_init = true;
  has_empty = false;
  mutex = 3;
  cond = 4;
  ext_Q = false;
  has_ext_Q = false;
  allocated = type;
}

abbrev a_root : NodeLength → Node
a_root len = a_node and_type and_type len none

abbrev a_leaf : Node
a_leaf = a_node leaf_type leaf_type more none

abbrev turning : Node
turning = a_node and_type leaf_type more none

-- every thread lives and hands the turn back at once
abbrev calm_env : Env
calm_env = record {
  slice = λ t w. pauses w;
  arrive = λ t w. none;
  await = λ w. none;
  answers = λ w. granted 5;
  erases = true;
  find = λ w t. 2;
  is_output = λ w. true;
}

abbrev a_world : Store → Option (List (Option Element)) → World
a_world s pushed = record {
  nodes = s;
  exits = λ t. 0;
  turn_id = 9;
  manager_id = 9;
  thread_root = 1;
  g_false = some false;
  keep_childs = none;
  prsnt = pushed;
  changed_node = 0;
  prj_node = 0;
  outputs = false;
  state_num = 0;
}

abbrev nodes_of : NodeLength → Store
nodes_of len =
    update 1 (some (a_root len)) (update 2 (some a_leaf) (update 4 (some turning) (λ _. none)))

leaf_once :
    leaf_execute calm_env 2 (a_world (nodes_of more) none) ≡ ok (tt, a_world (nodes_of more) none)
unfolding thread_exited
leaf_once =
    leaf_execute_lem calm_env (a_world (nodes_of more) none) 2 a_leaf refl refl (some false)
      (record (a_world (nodes_of more) none) { turn_id = 7 }) refl refl refl (inl refl)

leaf_in_turn :
    leaf_execute calm_env 2 (a_world (nodes_of more) none) ≡ ok (tt, a_world (nodes_of more) none)
unfolding thread_exited
leaf_in_turn =
    leaf_execute_lem calm_env (a_world (nodes_of more) none) 2 a_leaf refl refl (some false)
      (record (a_world (nodes_of more) none) { turn_id = 7 }) refl refl refl (inl refl)

never_arrives : (t : ℕ) (w w' : World) → calm_env.arrive t w ≡ some w' → OwnTurn w'
never_arrives t w w' e = absurd cc

own_at_start : OwnTurn (a_world (nodes_of more) none)
unfolding OwnTurn
own_at_start = refl

leaf_run :
    execute calm_env 1 2 (a_world (nodes_of more) none) ≡ ok (tt, a_world (nodes_of more) none)
unfolding execute dispatch_execute on_nodes load
leaf_run = leaf_once

execute-OwnTurn_example : OwnTurn (a_world (nodes_of more) none)
execute-OwnTurn_example =
    execute-OwnTurn calm_env 1 2 (a_world (nodes_of more) none) (a_world (nodes_of more) none)
      never_arrives own_at_start leaf_run

get_new_node-Renewed_example :
    (s' : Store) × (get_new_node calm_env 1 4 (a_world (nodes_of more) none)
      ≡ ok (5, record (a_world (nodes_of more) none) { nodes = s' }))
    × (s' 5 ≡ some (renewed turning))
    × (s' 4 ≡ some (record turning { mutex = 0; cond = 0 }))
    × ((q : ℕ) → q ≢ 4 → q ≢ 5 → s' q ≡ nodes_of more q)
get_new_node-Renewed_example =
    get_new_node-Renewed calm_env 1 4 5 (a_world (nodes_of more) none) turning refl refl
      (λ e. omega arith) (λ e. omega arith) (λ e. omega arith) refl refl (inl refl)

manager_thread_at_once :
    (w' : World) × (manager_thread calm_env 3 (a_world (nodes_of empty) none) ≡ ok (tt, w'))
    × (w'.thread_root ≡ 0)
    × (w'.nodes 1 ≡ none)
manager_thread_at_once =
    manager_thread-ends calm_env 2 (a_world (nodes_of empty) none) (a_root empty) refl refl
      (λ e. omega arith) refl refl refl

abbrev an_element : Element
an_element = record { thread_id = 7; left = []; right = []; priority = 1 }

calm_env-OnlyPush : OnlyPush calm_env
unfolding Pushed
calm_env-OnlyPush = record { in_turn = in_turn; in_front = λ t w w' e. absurd cc }
  where
    slice_of : World → Slice → World
    slice_of d (pauses w) = w
    slice_of d (ends w) = w
    slice_of d keeps_on = d

    in_turn :
        (t : ℕ) (w w' : World)
        → (◌≡◌ {A = Slice} (pauses w) (pauses w')) ⊎ (◌≡◌ {A = Slice} (pauses w) (ends w'))
        → Pushed w
        → Pushed w'
    in_turn t w w' (inl e) p = subst Pushed (ap (slice_of w) e) p
    in_turn t w w' (inr e) p = absurd cc

one-Pushed : Pushed (a_world (nodes_of more) (some (some an_element ∷ [])))
unfolding Pushed
one-Pushed = λ e. cc

manager_thread-Never_example :
    manager_thread calm_env 3 (a_world (nodes_of more) (some (some an_element ∷ [])))
    ≢ ok (tt, a_world (nodes_of more) none)
manager_thread-Never_example =
    manager_thread-Never calm_env 3 (a_world (nodes_of more) (some (some an_element ∷ [])))
      (a_root more) calm_env-OnlyPush one-Pushed refl (λ e. omega arith) refl refl
      (tt, a_world (nodes_of more) none)
