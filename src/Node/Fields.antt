-- ===== src/Node/Fields.antt =====
-- The 'Get' and 'Set' functions of node.c.
use lib_msvl.Base.{ℕ, Bool, Option, some, ◌≡◌, ok}
use lib_msvl.Node.Store.{
  bind-ok, load-some, Store, Node, NodeLength, NodeType, Childs, M, pure, load, modify, ◌>>=◌,
}

unfoldable pub get_thread : ℕ → M ℕ
get_thread this = do n ← load this; pure n.thread

unfoldable pub get_father : ℕ → M ℕ
get_father this = do n ← load this; pure n.father

unfoldable pub get_childs : ℕ → M (Option Childs)
get_childs this = do n ← load this; pure n.childs

unfoldable pub get_type : ℕ → M NodeType
get_type this = do n ← load this; pure n.type

unfoldable pub get_new_type : ℕ → M NodeType
get_new_type this = do n ← load this; pure n.new_type

unfoldable pub get_len : ℕ → M NodeLength
get_len this = do n ← load this; pure n.len

unfoldable pub get_is_init : ℕ → M Bool
get_is_init this = do n ← load this; pure n.is_init

unfoldable pub get_has_empty : ℕ → M Bool
get_has_empty this = do n ← load this; pure n.has_empty

unfoldable pub get_mutex : ℕ → M ℕ
get_mutex this = do n ← load this; pure n.mutex

unfoldable pub get_cond : ℕ → M ℕ
get_cond this = do n ← load this; pure n.cond

unfoldable pub set_thread : ℕ → ℕ → M (Unit {0})
set_thread thread this = modify (λ n. record n { thread = thread }) this

unfoldable pub set_father : ℕ → ℕ → M (Unit {0})
set_father father this = modify (λ n. record n { father = father }) this

unfoldable pub set_type : NodeType → ℕ → M (Unit {0})
set_type type this = modify (λ n. record n { type = type }) this

unfoldable pub set_new_type : NodeType → ℕ → M (Unit {0})
set_new_type new_type this = modify (λ n. record n { new_type = new_type }) this

unfoldable pub set_len : NodeLength → ℕ → M (Unit {0})
set_len len this = modify (λ n. record n { len = len }) this

unfoldable pub set_is_init : Bool → ℕ → M (Unit {0})
set_is_init is_init this = modify (λ n. record n { is_init = is_init }) this

unfoldable pub set_has_empty : Bool → ℕ → M (Unit {0})
set_has_empty has_empty this = modify (λ n. record n { has_empty = has_empty }) this

unfoldable pub set_mutex : ℕ → ℕ → M (Unit {0})
set_mutex mutex this = modify (λ n. record n { mutex = mutex }) this

unfoldable pub set_cond : ℕ → ℕ → M (Unit {0})
set_cond cond this = modify (λ n. record n { cond = cond }) this

-- prj_node_get_has_ext_Q
unfoldable pub get_has_ext_Q : ℕ → M Bool
get_has_ext_Q this = do n ← load this; pure n.has_ext_Q

pub get_type-some : (s : Store) (p : ℕ) {n : Node} → s p ≡ some n → get_type p s ≡ ok (n.type, s)
unfolding get_type
get_type-some s p e = bind-ok _ (load-some s p e)
