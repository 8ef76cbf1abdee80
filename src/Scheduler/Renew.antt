-- ===== src/Scheduler/Renew.antt =====
-- GetNewNode of node.c: the node that replaces one whose type is to change. Around the copy of a
-- pointer g_is_copied is set and cleared, which nothing observes.
use lib_msvl.Base.{ℕ, Bool, false, not, ◌+◌, Option, none, some, [], if◌then◌else◌, length, exit}
use lib_msvl.Node.Store.{
  Childs, Node, Store, M, NodeType, and_type, pal_type, prj_type, keep_type, alw_type, leaf_type,
  root_type, load, modify, same_type,
}
use lib_msvl.Node.Store
use lib_msvl.Node.Children.{slots_of}
use lib_msvl.Node.Create.{Answers, import, prj_node_import, none_node_import}
use lib_msvl.Node.Destroy.{destroy, destroy_slots}
use lib_msvl.Scheduler.World.{Env, W, pure, ◌>>=◌, aborts, world, on_nodes}

-- The array without its objects.
abbrev pub emptied : Option Childs → Option Childs
emptied none = none
emptied (some c) = some (record { slots = []; spare = length c.slots + c.spare })

-- dyn_array_clear of the children: each is destroyed.
unfoldable pub clear_childs : Bool → ℕ → ℕ → M (Unit {0})
clear_childs erased depth node = Store.◌>>=◌ (load node) λ n.
    Store.◌>>=◌ (destroy_slots (destroy false erased depth) (slots_of n.childs))
      λ _. modify (λ m. record m { childs = emptied m.childs }) node

-- The switch over the new type: PAL has no case.
unfoldable pub import_as : Bool → ℕ → Answers → NodeType → ℕ → M ℕ
import_as erased depth ans leaf_type node =
    Store.◌>>=◌ (clear_childs erased depth node) λ _. import ans node
import_as erased depth ans and_type node = import ans node
import_as erased depth ans prj_type node = prj_node_import ans node
import_as erased depth ans keep_type node = none_node_import ans node
import_as erased depth ans alw_type node = none_node_import ans node
import_as erased depth ans pal_type node = λ s. exit 1
import_as erased depth ans root_type node = λ s. exit 1

-- `node_get_type(node) != node_get_new_type(node)`
unfoldable pub changes : ℕ → W Bool
changes node = do n ← on_nodes (load node); pure (not (same_type n.type n.new_type))

module _ (env : Env) where
  unfoldable pub get_new_node : ℕ → ℕ → W ℕ
  get_new_node depth node = do
    n ← on_nodes (load node)
    if env.erases
        then (do w ← world; on_nodes (import_as env.erases depth (env.answers w) n.new_type node))
        else aborts
