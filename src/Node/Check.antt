-- ===== src/Node/Check.antt =====
-- node_is_exit and the *_is_correct_and_exit family of node.c. `kill thread 0` of the threads
-- library is a parameter. The recursion through the tree takes fuel for its depth.
use lib_msvl.Base.{
  ◌*◌, ◌-◌, ℕ, zero, suc, ◌+◌, Bool, true, false, not, ◌&&◌, ◌||◌, List, [], ◌∷◌, ◌==◌,
  if◌then◌else◌, length, fault, exit, out_of_fuel,
}
use lib_msvl.Node.Store.{
  NodeLength, more, empty, none_len, NodeType, and_type, pal_type, prj_type, keep_type, alw_type,
  leaf_type, root_type, M, pure, load, modify, len_code, same_type, ◌>>=◌, ◌>>◌,
}
use lib_msvl.Node.Fields.{set_len, get_len, get_type}
use lib_msvl.Node.Children.{slots_of}

-- the values of errno.h
abbrev pub esrch : ℕ
esrch = 3

abbrev pub einval : ℕ
einval = 22

abbrev is_empty_len : NodeLength → Bool
is_empty_len l = len_code l == len_code empty

-- The access through an address that is no node: `node_get_type(LEAF)` and a NULL iterator.
abbrev wild : {A : Type 0} → M A
wild s = fault

-- `it != dyn_array_back(this->childs) + 1` of prj_node_is_correct_and_exit, as distances from the
-- first slot: slots have 8 bytes, and 1 is added to a `void *`, without the cast that the
-- loops over the children of AND and PAL have, and counts as one byte.
unfoldable pub at_end : ℕ → ℕ → Bool
at_end size i = 8 * i == 8 * (size - 1) + 1

module _ (kill : ℕ → ℕ) where
  -- a thread of which pthread_kill says that there is none
  unfoldable pub thread_exited : ℕ → Bool
  thread_exited thread =
      if thread == 0 then true else (kill thread == esrch || kill thread == einval)

  unfoldable pub is_exit : ℕ → M Bool
  is_exit this = do n ← load this; pure (thread_exited n.thread)

  -- keep_node_is_correct_and_exit and alw_node_is_correct_and_exit are is_exit.
  unfoldable pub leaf_is_correct_and_exit : ℕ → M Bool
  leaf_is_correct_and_exit this = do
    n ← load this
    exited ← is_exit this
    pure (exited || not (len_code n.len == 0))

  -- The loop of and_node_is_correct_and_exit: how many children are empty leaves, and how many have
  -- a length that is decided elsewhere. Past the test on an exited empty child the code reads the
  -- type of address LEAF.
  unfoldable pub and_loop : (ℕ → M Bool) → ℕ → List ℕ → ℕ → ℕ → M (ℕ × ℕ)
  and_loop check this [] empty_num none_num = pure (empty_num, none_num)
  and_loop check this (p ∷ ps) empty_num none_num = do
    exited ← check p
    n ← load p
    (if is_empty_len n.len && same_type n.type leaf_type
        then modify (λ m. record m { has_empty = true }) this
        else pure tt)
    (if exited && is_empty_len n.len
        then wild
        else and_loop check this ps
            (if is_empty_len n.len && same_type n.type leaf_type then empty_num + 1 else empty_num)
            (if is_empty_len n.len && same_type n.type leaf_type
              then none_num
              else if len_code n.len == len_code none_len
              then none_num + 1
              else none_num))

  -- what follows the loop
  unfoldable pub and_verdict : ℕ → ℕ → ℕ → ℕ → M Bool
  and_verdict this size empty_num none_num = do
    n ← load this
    (if not n.has_empty
        then (do set_len (if none_num == size then none_len else more) this; pure false)
        else if empty_num + none_num == size
        then (do set_len empty this; pure true)
        else pure false)

  -- With no child the loop starts at NULL, which is not one past the end of NULL, and reads it.
  unfoldable pub and_is_correct_and_exit : (ℕ → M Bool) → ℕ → M Bool
  and_is_correct_and_exit check this = do
    n ← load this
    (if length (slots_of n.childs) == 0 then wild else (do
      (empty_num, none_num) ← and_loop check this (slots_of n.childs) 0 0
      and_verdict this (length (slots_of n.childs)) empty_num none_num))

  -- The loop of pal_node_is_correct_and_exit frees a finished leaf and then erases its slot, whose
  -- destructor node_destroy_wrap is given the freed node.
  unfoldable pub pal_loop : (ℕ → M Bool) → ℕ → List ℕ → M (Unit {0})
  pal_loop check this [] = pure tt
  pal_loop check this (p ∷ ps) = do
    finished ← check p
    t ← get_type p
    (if finished && same_type t leaf_type then wild else pal_loop check this ps)

  -- No leaf is counted before the loop has left, so `empty_num` is 0 behind it.
  unfoldable pub pal_is_correct_and_exit : (ℕ → M Bool) → ℕ → M Bool
  pal_is_correct_and_exit check this = do
    n ← load this
    (if length (slots_of n.childs) == 0 then wild else (do
      pal_loop check this (slots_of n.childs)
      len ← get_len this
      (if is_empty_len len
          then pure true
          else if 0 == length (slots_of n.childs)
          then (do set_len empty this; pure true)
          else pure false)))

  -- The loop of prj_node_is_correct_and_exit from slot `i` on. Behind the last slot it reads what
  -- is not an element.
  unfoldable pub prj_loop : ℕ → ℕ → List ℕ → ℕ → M ℕ
  prj_loop size i [] exit_num = if at_end size i then pure exit_num else wild
  prj_loop size i (p ∷ ps) exit_num = if at_end size i then pure exit_num else (do
    n ← load p
    prj_loop size (i + 1) ps
        (if is_empty_len n.len && same_type n.type leaf_type then exit_num + 1 else exit_num))

  -- The address of slot 0 is taken for that of a node, whose field `thread` is what the slot holds.
  -- With one child the loop starts at NULL.
  unfoldable pub prj_slots : ℕ → List ℕ → M Bool
  prj_slots this [] = wild
  prj_slots this (q ∷ []) = wild
  prj_slots this (q ∷ p ∷ ps) = do
    exit_num ← prj_loop (length (q ∷ p ∷ ps)) 1 (p ∷ ps) (if thread_exited q then 1 else 0)
    len ← get_len this
    (if is_empty_len len
        then pure true
        else if exit_num == length (q ∷ p ∷ ps)
        then (do set_len empty this; pure true)
        else pure false)

  unfoldable pub prj_is_correct_and_exit : ℕ → M Bool
  prj_is_correct_and_exit this = do n ← load this; prj_slots this (slots_of n.childs)

  -- node_is_correct_and_exit: NULL and ROOT end the program.
  unfoldable pub dispatch : (ℕ → M Bool) → NodeType → ℕ → M Bool
  dispatch check and_type this = and_is_correct_and_exit check this
  dispatch check pal_type this = pal_is_correct_and_exit check this
  dispatch check prj_type this = prj_is_correct_and_exit this
  dispatch check keep_type this = is_exit this
  dispatch check alw_type this = is_exit this
  dispatch check leaf_type this = leaf_is_correct_and_exit this
  dispatch check root_type this = λ s. exit 1

  unfoldable pub is_correct_and_exit : ℕ → ℕ → M Bool
  is_correct_and_exit zero this = λ s. out_of_fuel
  is_correct_and_exit (suc depth) this =
      if this == 0
      then (λ s. exit 1)
      else (do n ← load this; dispatch (is_correct_and_exit depth) n.type this)
