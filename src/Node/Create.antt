-- ===== src/Node/Create.antt =====
-- node_create, node_import and the constructors of the kinds of node.c. The global hash map of
-- nodes rests on functions that the repository does not define, so what they answer is a parameter.
-- The arrays of children are allocated with success.
use lib_msvl.Base.{
  ℕ, zero, suc, ◌+◌, ◌-◌, Bool, true, false, not, Option, none, some, List, [], ltb, ◌==◌,
  if◌then◌else◌, length, set, Run, ok, fault, exit,
}
use lib_msvl.Base
use lib_msvl.DynArray.Layout.{double_until, doublings}
use lib_msvl.Node.Store.{
  NodeType, and_type, pal_type, prj_type, keep_type, alw_type, leaf_type, root_type, more, none_len,
  Childs, update, M, pure, load, store, modify, type_code, same_type, ◌>>=◌, ◌>>◌,
}
use lib_msvl.Node.Fields.{set_len, set_mutex, set_cond}

-- What the environment answers one construction: the address that malloc returns, or 0; whether
-- there is a global map; and whether it takes the new pair.
pub record Answers : Type 0 where
  pub address : ℕ
  pub has_map : Bool
  pub inserted : Bool

-- a failed assert
abbrev pub aborted : {A : Type 0} → M A
aborted s = exit 134

-- `for(i = 0;i < size;i++) node_set_father((node_t *)dyn_array_at(childs, i), node);` The address
-- of slot `i` is taken for that of a node, whose field `father` lies 8 bytes on: in slot `i + 1`,
-- or behind the last slot.
unfoldable pub set_fathers : ℕ → ℕ → ℕ → Childs → Run Childs
set_fathers zero i node c = ok c
set_fathers (suc n) i node c =
    if ltb (i + 1) (length c.slots)
    then set_fathers n (i + 1) node (record c { slots = set c.slots (i + 1) node })
    else if not (c.spare == 0)
    then set_fathers n (i + 1) node c
    else fault

-- dyn_array_import of the slots, NULL if there are none, or else dyn_array_create
unfoldable pub import_slots : Option Childs → Run (Option Childs)
import_slots none = ok (some (record { slots = []; spare = 16 }))
import_slots (some c) =
    if length c.slots == 0
    then ok none
    else Base.◌>>=◌ (double_until doublings 16 (length c.slots))
        λ capacity. ok (some (record { slots = c.slots; spare = capacity - length c.slots }))

unfoldable pub set_fathers_of : ℕ → Option Childs → Run (Option Childs)
set_fathers_of node none = ok none
set_fathers_of node (some c) = Base.◌>>=◌ (set_fathers (length c.slots) 0 node c) λ c'. ok (some c')

abbrev lift : {A : Type 0} → Run A → M A
lift r s = Base.◌>>=◌ r λ a. ok (a, s)

abbrev is_kind : NodeType → Bool
is_kind root_type = false
is_kind _ = true

-- The new node, or 0, and what the loop over `childs` leaves of that array. The fields that are not
-- written, `ext_Q` and `has_ext_Q`, start as false.
unfoldable pub create :
    Answers → ℕ → ℕ → Option Childs → NodeType → Bool → ℕ → ℕ → M (ℕ × Option Childs)
create ans thread father childs type is_init mutex cond =
    if is_kind type
    then (if ans.address == 0 then pure (0, childs) else (do
      own ← lift (import_slots childs)
      (λ s. ok (
        tt,
        update ans.address
            (some (record {
              thread = thread;
              father = father;
              childs = own;
              type = type;
              new_type = type;
              len = more;
              is_init = is_init;
              has_empty = false;
              mutex = mutex;
              cond = cond;
              ext_Q = false;
              has_ext_Q = false;
              allocated = type;
            }))
            s,
      ))
      if not ans.has_map
          then pure (0, childs)
          else if not ans.inserted
          then aborted
          else (do left ← lift (set_fathers_of ans.address childs); pure (ans.address, left))))
    else pure (0, childs)

-- The callers pass `is_init` where the type stands, and the type where `is_init` stands: a bool
-- becomes an enumerator, and an enumerator a bool.
abbrev pub type_of_bool : Bool → NodeType
type_of_bool false = and_type
type_of_bool true = pal_type

abbrev pub bool_of_type : NodeType → Bool
bool_of_type t = not (type_code t == 0)

module _ (ans : Answers) (thread father : ℕ) (childs : Option Childs) (is_init : Bool)
    (mutex cond : ℕ) where
  unfoldable pub create_kind : NodeType → M (ℕ × Option Childs)
  create_kind kind =
      create ans thread father childs (type_of_bool is_init) (bool_of_type kind) mutex cond

  unfoldable pub and_node_create : M (ℕ × Option Childs)
  and_node_create = create_kind and_type

  unfoldable pub pal_node_create : M (ℕ × Option Childs)
  pal_node_create = create_kind pal_type

  unfoldable pub leaf_node_create : M (ℕ × Option Childs)
  leaf_node_create = create_kind leaf_type

  -- `ret->ext_Q = true` writes behind any struct but that of PRJ.
  unfoldable pub prj_node_create : M (ℕ × Option Childs)
  prj_node_create = do
    r ← create_kind prj_type
    n ← load r.0
    if same_type n.allocated prj_type
        then (do store r.0 (record n { ext_Q = true }); pure r)
        else λ s. fault

  -- the common part of keep_node_create and alw_node_create
  unfoldable pub none_node_create : NodeType → M (ℕ × Option Childs)
  none_node_create kind = do
    r ← create_kind kind
    set_len none_len r.0
    n ← load r.0
    set_len none_len n.father
    pure r

  unfoldable pub keep_node_create : M (ℕ × Option Childs)
  keep_node_create = none_node_create keep_type

  unfoldable pub alw_node_create : M (ℕ × Option Childs)
  alw_node_create = none_node_create alw_type

-- node_import; the loop over `childs` in node_create changes the array of the old node.
unfoldable pub import : Answers → ℕ → M ℕ
import ans node = if node == 0 then pure 0 else (do
  n ← load node
  r ←
      create ans n.thread n.father n.childs (type_of_bool n.is_init) (bool_of_type n.type) n.mutex
        n.cond
  modify (λ m. record m { childs = r.1 }) node
  modify (λ m. record m { new_type = n.new_type; len = n.len; has_empty = n.has_empty }) r.0
  set_mutex 0 node
  set_cond 0 node
  pure r.0)

-- and_node_import, pal_node_import and leaf_node_import are node_import; prj_node_import sets
-- `ext_Q`.
unfoldable pub prj_node_import : Answers → ℕ → M ℕ
prj_node_import ans node = do
  r ← import ans node
  n ← load r
  if same_type n.allocated prj_type then (do store r (record n { ext_Q = true }); pure r) else λ s.
      fault

-- keep_node_import and alw_node_import
unfoldable pub none_node_import : Answers → ℕ → M ℕ
none_node_import ans node = do
  r ← import ans node
  set_len none_len r
  n ← load r
  set_len none_len n.father
  pure r
