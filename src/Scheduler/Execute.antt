-- ===== src/Scheduler/Execute.antt =====
-- node_execute, and_node_execute, pal_node_execute and prj_node_execute of node.c. `exec` runs a
-- child; `fuel` bounds the rounds of each loop and the depth of the checks.
use lib_msvl.Base.{
  ℕ, zero, suc, ◌+◌, Bool, true, false, Option, none, some, List, ◌++◌, ◌==◌, leb, if◌then◌else◌,
  length, take, drop, set, get_elem?, exit,
}
use lib_msvl.Node.Store.{
  Childs, NodeType, and_type, pal_type, prj_type, keep_type, alw_type, leaf_type, root_type, empty,
  len_code, load, modify,
}
use lib_msvl.Node.Fields.{set_new_type}
use lib_msvl.Node.Children.{slots_of}
use lib_msvl.Node.Check.{
  is_correct_and_exit, and_is_correct_and_exit, pal_is_correct_and_exit, prj_is_correct_and_exit,
}
use lib_msvl.Node.Destroy.{free, destroy}
use lib_msvl.Scheduler.World.{
  Env, W, pure, ◌>>=◌, ◌>>◌, undefined, diverges, on_nodes, asking, or_false,
}
use lib_msvl.Scheduler.Handshake.{leaf_execute, keep_execute, alw_execute}
use lib_msvl.Scheduler.Renew.{get_new_node, changes}

-- `childs[i]`, where an index past the end gives NULL, which is read
abbrev pub slot_of : List ℕ → ℕ → W ℕ
slot_of ps i = elim (get_elem? ps i) as (λ _. W ℕ) [ none ↦ undefined | some p ↦ pure p ]

abbrev pub map_slots : (List ℕ → List ℕ) → Option Childs → Option Childs
map_slots f none = none
map_slots f (some c) = some (record c { slots = f c.slots })

unfoldable pub set_slot : ℕ → ℕ → ℕ → W (Unit {0})
set_slot this i p =
    on_nodes (modify (λ m. record m { childs = map_slots (λ ps. set ps i p) m.childs }) this)

unfoldable pub slots : ℕ → W (List ℕ)
slots this = do n ← on_nodes (load this); pure (slots_of n.childs)

module _ (env : Env) (exec : ℕ → W (Unit {0})) where
  -- `while(i < size) { execute the child; if its type changes, replace it and stay; else i++; }`
  unfoldable pub each_child : ℕ → ℕ → ℕ → W (Unit {0})
  each_child zero this i = diverges
  each_child (suc fuel) this i = do
    ps ← slots this
    if leb (length ps) i then pure tt else (do
      child ← slot_of ps i
      exec child
      changed ← changes child
      if changed
          then (do new ← get_new_node env fuel child; set_slot this i new; each_child fuel this i)
          else each_child fuel this (i + 1))

  unfoldable pub and_execute : ℕ → ℕ → W (Unit {0})
  and_execute fuel this = do
    done ← asking (λ kill. and_is_correct_and_exit kill (is_correct_and_exit kill fuel) this)
    stop ← or_false done
    if stop then on_nodes (set_new_type leaf_type this) else each_child fuel this 0

  -- The loop ends at dyn_array_back() with no argument, read as that of the children; with no child
  -- the iterator starts at NULL. The array is taken not to move while its children are executed.
  unfoldable pub pal_execute : ℕ → ℕ → W (Unit {0})
  pal_execute fuel this = do
    done ← asking (λ kill. pal_is_correct_and_exit kill (is_correct_and_exit kill fuel) this)
    stop ← or_false done
    if stop
        then on_nodes (set_new_type leaf_type this)
        else (do ps ← slots this; if length ps == 0 then undefined else each_child fuel this 0)

  -- `node_execute(n); while(type != new_type) { n = GetNewNode(n); node_execute(n); }`
  unfoldable pub run_renewed : ℕ → ℕ → W ℕ
  run_renewed zero n = diverges
  run_renewed (suc fuel) n = do
    exec n
    changed ← changes n
    if changed then (do new ← get_new_node env fuel n; run_renewed fuel new) else pure n

  unfoldable pub set_ext_Q : Bool → ℕ → W (Unit {0})
  set_ext_Q b this = on_nodes (modify (λ m. record m { ext_Q = b }) this)

  -- `dyn_array_erase(this->childs, 1)`, which destroys the node of slot 1
  unfoldable pub erase_second : ℕ → ℕ → W (Unit {0})
  erase_second fuel this = do
    ps ← slots this
    old ← slot_of ps 1
    on_nodes (destroy false env.erases fuel old)
    on_nodes
        (modify (λ m. record m { childs = map_slots (λ qs. take 1 qs ++ drop 2 qs) m.childs }) this)

  -- `while(node_get_len(n1) == EMPTY)`
  unfoldable pub skip_empty : ℕ → ℕ → ℕ → W (Unit {0})
  skip_empty zero this n1 = diverges
  skip_empty (suc fuel) this n1 = do
    n ← on_nodes (load n1)
    if len_code n.len == len_code empty
        then (do
          set_ext_Q true this
          on_nodes (free n1)
          erase_second fuel this
          ps ← slots this
          if length ps == 1 then pure tt else (do
            next ← slot_of ps 1
            renewed ← run_renewed fuel next
            skip_empty fuel this renewed))
        else pure tt

  -- the part from `this->has_ext_Q = this->ext_Q` on
  unfoldable pub execute_first : ℕ → ℕ → W (Unit {0})
  execute_first fuel this = do
    on_nodes (modify (λ m. record m { has_ext_Q = m.ext_Q }) this)
    n ← on_nodes (load this)
    n0 ← slot_of (slots_of n.childs) 0
    if n.ext_Q
        then (do
          done ← asking (λ kill. is_correct_and_exit kill fuel n0)
          if done then (do _ ← run_renewed fuel n0; set_ext_Q false this) else pure tt)
        else pure tt

  unfoldable pub prj_execute : ℕ → ℕ → W (Unit {0})
  prj_execute fuel this = do
    done ← asking (λ kill. prj_is_correct_and_exit kill this)
    stop ← or_false done
    if stop then on_nodes (set_new_type leaf_type this) else (do
      ps ← slots this
      (if leb (length ps) 1
          then set_ext_Q true this
          else (do first ← slot_of ps 1; n1 ← run_renewed fuel first; skip_empty fuel this n1))
      execute_first fuel this)

  unfoldable pub dispatch_execute : ℕ → NodeType → ℕ → W (Unit {0})
  dispatch_execute fuel and_type this = and_execute fuel this
  dispatch_execute fuel pal_type this = pal_execute fuel this
  dispatch_execute fuel prj_type this = prj_execute fuel this
  dispatch_execute fuel keep_type this = keep_execute env fuel this
  dispatch_execute fuel alw_type this = alw_execute env fuel this
  dispatch_execute fuel leaf_type this = leaf_execute env this
  dispatch_execute fuel root_type this = λ w. exit 1

-- node_execute
unfoldable pub execute : Env → ℕ → ℕ → W (Unit {0})
execute env zero this = diverges
execute env (suc fuel) this =
    if this == 0
    then (λ w. exit 1)
    else (do n ← on_nodes (load this); dispatch_execute env (execute env fuel) fuel n.type this)
