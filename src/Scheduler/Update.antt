-- ===== src/Scheduler/Update.antt =====
-- UpdateNode and ExecuteKeepChilds of msvl.c.
use lib_msvl.Base.{
  ℕ, zero, suc, ◌+◌, not, ◌||◌, none, some, List, [], ◌∷◌, ◌==◌, if◌then◌else◌, ok, fault,
}
use lib_msvl.Node.Store.{load, same_type}
use lib_msvl.Node.Fields.{get_father}
use lib_msvl.Scheduler.World.{Env, W, pure, ◌>>=◌, ◌>>◌, undefined, diverges, world, on_nodes}
use lib_msvl.Scheduler.Renew.{get_new_node, changes}
use lib_msvl.Scheduler.Execute.{slots, set_slot, execute}

-- `for(i = 0;*(node_t **)dyn_array_at(childs, i) != node;i++);`, which reads NULL past the end
unfoldable pub index_of : ℕ → ℕ → List ℕ → W ℕ
index_of node i [] = undefined
index_of node i (p ∷ ps) = if p == node then pure i else index_of node (i + 1) ps

module _ (env : Env) where
  -- The do-while loop: the type of the last new node is compared with the new type of the old one.
  unfoldable pub renew : ℕ → ℕ → ℕ → ℕ → W (Unit {0})
  renew zero node i temp = diverges
  renew (suc fuel) node i temp = do
    new ← get_new_node env fuel temp
    father ← on_nodes (get_father node)
    set_slot father i new
    execute env fuel new
    n ← on_nodes (load new)
    old ← on_nodes (load node)
    if same_type n.type old.new_type then pure tt else renew fuel node i new

  unfoldable pub update_node : ℕ → ℕ → W (Unit {0})
  update_node fuel node = if node == 0 then pure tt else (do
    changed ← changes node
    w ← world
    if not changed || node == w.thread_root then pure tt else (do
      father ← on_nodes (get_father node)
      ps ← slots father
      i ← index_of node 0 ps
      renew fuel node i node))

-- ExecuteKeepChilds takes the address of a slot of g_keep_childs for that of a node: with a child
-- in the queue the first access is through that address.
unfoldable pub execute_keep_childs : W (Unit {0})
execute_keep_childs w = elim w.keep_childs [
  | none ↦ ok (tt, w)
  | some [] ↦ ok (tt, w)
  | some (p ∷ ps) ↦ fault
]
