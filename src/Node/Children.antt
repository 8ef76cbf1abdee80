-- ===== src/Node/Children.antt =====
-- node_add_child, and_node_insert_child, and_node_insert_childs and and_node_get_insert_pos of
-- node.c. The array of children is the list of its slots, as the contract of dyn_array.c has it,
-- and its allocations succeed.
use lib_msvl.Base.{
  ℕ, zero, suc, ◌-◌, Bool, true, false, Option, none, some, List, [], ◌∷◌, ◌++◌, ltb, ◌==◌,
  if◌then◌else◌, length, take, drop, get_elem?, fault,
}
use lib_msvl.Node.Store.{NodeType, keep_type, Childs, M, pure, load, modify, ◌>>=◌}
use lib_msvl.Node.Fields.{get_type}

-- the spare slots after one object more: a full array doubles
abbrev pub spare_after : ℕ → ℕ → ℕ
spare_after size spare = if spare == 0 then size - 1 else spare - 1

-- dyn_array_insert on an array of pointers; an index past the size and a NULL array are refused.
unfoldable pub insert_slot : ℕ → ℕ → Option Childs → Option Childs
insert_slot index p none = none
insert_slot index p (some c) =
    if ltb (length c.slots) index
    then some c
    else some (record {
      slots = take index c.slots ++ (p ∷ drop index c.slots);
      spare = spare_after (length c.slots) c.spare;
    })

abbrev pub slots_of : Option Childs → List ℕ
slots_of none = []
slots_of (some c) = c.slots

abbrev pub is_keep : NodeType → Bool
is_keep keep_type = true
is_keep _ = false

-- `childs->size` of a NULL array is undefined behaviour.
unfoldable pub add_child : ℕ → ℕ → M (Unit {0})
add_child child this = do
  n ← load this
  elim n.childs [
    | none ↦ λ s. fault
    | some c ↦ modify (λ m. record m { childs = insert_slot (length c.slots) child (some c) }) this
  ]

-- the type that a slot's node has
abbrev pub slot_type : Option ℕ → M NodeType
slot_type none = λ s. fault
slot_type (some p) = get_type p

-- `for(i = size - 1;i >= 0;i--)`, with `i` slots left to look at
unfoldable pub insert_pos_from : ℕ → List ℕ → M ℕ
insert_pos_from zero slots = pure 0
insert_pos_from (suc i) slots = do
  t ← slot_type (get_elem? slots i)
  elim (is_keep t) [ false ↦ pure i | true ↦ insert_pos_from i slots ]

unfoldable pub get_insert_pos : ℕ → M ℕ
get_insert_pos this = do
  n ← load this
  insert_pos_from (length (slots_of n.childs)) (slots_of n.childs)

unfoldable pub insert_child : ℕ → ℕ → M (Unit {0})
insert_child this child = do
  pos ← get_insert_pos this
  modify (λ m. record m { childs = insert_slot pos child m.childs }) this

-- every child is inserted at the same index
abbrev pub insert_slots : ℕ → List ℕ → Option Childs → Option Childs
insert_slots index [] c = c
insert_slots index (p ∷ ps) c = insert_slots index ps (insert_slot index p c)

unfoldable pub insert_childs : ℕ → List ℕ → M (Unit {0})
insert_childs this childs = do
  index ← get_insert_pos this
  modify (λ m. record m { childs = insert_slots index childs m.childs }) this
