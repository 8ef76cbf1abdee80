-- ===== src/Predecessor/Lengths.antt =====
-- setNodeLength of function.cpp and the functions that it hands a change of length to. They follow
-- the pointers to fathers, so that the objects stand in a store here.
use lib_msvl.Base.{
  ℕ, zero, suc, ◌+◌, Bool, true, false, not, ◌&&◌, List, [], ◌∷◌, length, ◌==◌, ltb, if◌then◌else◌,
  Run, ok, fault, exit, out_of_fuel, Option, none, some, ◌>>=◌,
}
use lib_msvl.Node.Store.{
  NodeLength, empty, none_len, NodeType, and_type, pal_type, prj_type, keep_type, alw_type,
  leaf_type, root_type, len_code, same_type,
}
use lib_msvl.Predecessor.Tree.{ThreadNode}
use lib_msvl.Predecessor.Check.{is_empty_leaf}
use lib_msvl.Predecessor.Objects.{Object, Heap, object_of, put}

-- the counts of children of length NONE and of empty leaves
unfoldable pub count_lengths : Heap → List ℕ → ℕ → ℕ → Run (ℕ × ℕ)
count_lengths h [] nones emps = ok (nones, emps)
count_lengths h (p ∷ ps) nones emps = do
  o ← object_of h p
  (if len_code o.node.len == 2
      then count_lengths h ps (nones + 1) emps
      else if is_empty_leaf o.node
      then count_lengths h ps nones (emps + 1)
      else count_lengths h ps nones emps)

-- What one round of setAndLen makes of a statement, and whether its father is next or the statement
-- has changed its kind.
pub data AndRound : Type 0 where
  go_on : ThreadNode → AndRound
  becomes : ThreadNode → AndRound
  stops : ThreadNode → AndRound

abbrev pub note_ended : ThreadNode → ℕ → ThreadNode
note_ended n emps = record n { has_empty = if ltb 0 emps then true else n.has_empty }

unfoldable pub and_round : ThreadNode → ℕ → ℕ → ℕ → AndRound
and_round n size nones emps =
    if nones == size && not (note_ended n emps).has_empty
    then go_on (record (note_ended n emps) { len = none_len })
    else if emps + (if (note_ended n emps).has_empty then nones else 0) == size
    then becomes (record (note_ended n emps) { len = empty; new_type = leaf_type })
    else stops (note_ended n emps)

unfoldable pub after_round : (Heap → Run Heap) → ℕ → Object → Heap → AndRound → Run Heap
after_round next p o h (go_on n) = next (put p n o h)
after_round next p o h (becomes n) = ok (record (put p n o h) { changed_node = p })
after_round next p o h (stops n) = ok (put p n o h)

-- setAndLen climbs to the fathers, for whose number it takes fuel.
unfoldable pub set_and_len : ℕ → ℕ → Heap → Run Heap
set_and_len zero p h = out_of_fuel
set_and_len (suc depth) p h = if p == 0 then ok h else (do
  o ← object_of h p
  (if not (same_type o.node.type and_type) then ok h else (do
    (nones, emps) ← count_lengths h o.childs 0 0
    after_round (set_and_len depth o.father) p o h
        (and_round o.node (length o.childs) nones emps))))

unfoldable pub set_pal_len : ℕ → Heap → Run Heap
set_pal_len p h = do
  o ← object_of h p
  (nones, emps) ← count_lengths h o.childs 0 0
  (if nones == length o.childs
      then ok (put p (record o.node { len = none_len }) o h)
      else if emps + nones == length o.childs
      then ok (record (put p (record o.node { len = empty; new_type = leaf_type }) o h) {
        changed_node = p;
      })
      else ok h)

-- The loop of setPrjLen: how many children are leaves of a length other than MORE, and what
-- follows the child, where it has been met.
unfoldable pub prj_scan : Heap → ℕ → List ℕ → ℕ → Option (List ℕ) → Run (ℕ × Option (List ℕ))
prj_scan h child [] sum pos = ok (sum, pos)
prj_scan h child (p ∷ ps) sum pos = do
  o ← object_of h p
  prj_scan h child ps
      (if not (len_code o.node.len == 0) && same_type o.node.type leaf_type then sum + 1 else sum)
      (if p == child then some ps else pos)

-- childs[0]
abbrev pub is_first : ℕ → List ℕ → Bool
is_first child [] = false
is_first child (p ∷ ps) = p == child

-- Where the child has not been met, `pos` has no value.
unfoldable pub prj_after : ℕ → Heap → Object → Option (List ℕ) → Run Heap
prj_after father h o none = fault
prj_after father h o (some []) = ok h
prj_after father h o (some (p ∷ ps)) =
    if not o.has_ext_Q then ok (record h { prj_node = father }) else ok h

unfoldable pub set_prj_len : ℕ → ℕ → Heap → Run Heap
set_prj_len father child h = do
  o ← object_of h father
  (sum, pos) ← prj_scan h child o.childs 0 none
  (if sum == length o.childs
      then ok (put father (record o.node { len = empty; new_type = leaf_type }) o h)
      else if is_first child o.childs
      then ok h
      else prj_after father h o pos)

-- the switch of setNodeLength
unfoldable pub hand_on : ℕ → NodeType → ℕ → ℕ → Heap → Run Heap
hand_on depth and_type father child h = set_and_len depth father h
hand_on depth pal_type father child h = set_pal_len father h
hand_on depth prj_type father child h = set_prj_len father child h
hand_on depth keep_type father child h = ok h
hand_on depth alw_type father child h = ok h
hand_on depth leaf_type father child h = ok h
hand_on depth root_type father child h = ok h

unfoldable pub after_length : ℕ → ℕ → Object → Heap → Run Heap
after_length depth p o h =
    if o.father == 0
    then ok h
    else (do f ← object_of h o.father; hand_on depth f.node.type o.father p h)

-- A thread without a node fails the assertion.
unfoldable pub set_length_at : ℕ → NodeLength → Heap → Option ℕ → Run Heap
set_length_at depth len h none = exit 134
set_length_at depth len h (some p) = do
  o ← object_of h p
  after_length depth p o (put p (record o.node { len = len }) o h)

-- setNodeLength, called by the thread `self`
unfoldable pub set_node_length : ℕ → ℕ → NodeLength → Heap → Run Heap
set_node_length depth self len h = set_length_at depth len h (h.thread_id_to_node self)
