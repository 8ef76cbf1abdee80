-- ===== src/Scheduler/Handshake.antt =====
-- The part that leaf_node_execute, keep_node_execute and alw_node_execute of node.c share, and the
-- three of them.
use lib_msvl.Base.{
  ℕ, zero, suc, false, Option, none, some, List, [], ◌∷◌, ◌++◌, ◌==◌, if◌then◌else◌, length, ok,
}
use lib_msvl.Node.Store.{more, len_code, load, modify}
use lib_msvl.Node.Fields.{set_father, set_len}
use lib_msvl.Node.Children.{slots_of, insert_slot}
use lib_msvl.Node.Check.{is_exit}
use lib_msvl.Node.Destroy.{destroy, destroy_slots}
use lib_msvl.Scheduler.World.{
  pauses, ends, keeps_on, Env, W, pure, ◌>>=◌, ◌>>◌, undefined, diverges, on_nodes, asking,
  or_false,
}

module _ (env : Env) where
  -- `while(!this->is_init) sched_yield();`
  unfoldable pub wait_init : ℕ → W (Unit {0})
  wait_init this w =
      (do
        n ← on_nodes (load this)
        if n.is_init then pure tt else λ w'. elim (env.arrive n.thread w') [
          | none ↦ diverges w'
          | some w'' ↦ ok (tt, w'')
        ])
        w

  -- From the signal to the end of the loop that waits for the turn: MyPauseThread gives it back,
  -- and a thread that has ended is found by node_is_exit.
  unfoldable pub give_turn : ℕ → W (Unit {0})
  give_turn thread w = elim (env.slice thread (record w { turn_id = thread })) [
    | pauses w' ↦ ok (tt, record w' { turn_id = w'.manager_id })
    | ends w' ↦ ok (tt, record w' { turn_id = w'.manager_id })
    | keeps_on ↦ diverges w
  ]

  unfoldable pub handshake : ℕ → W (Unit {0})
  handshake this = do wait_init this; n ← on_nodes (load this); give_turn n.thread

  -- leaf_node_execute
  unfoldable pub leaf_execute : ℕ → W (Unit {0})
  leaf_execute this = do
    exited ← asking (λ kill. is_exit kill this)
    stop ← or_false exited
    n ← on_nodes (load this)
    if stop then pure tt else if len_code n.len == 0 then handshake this else pure tt

  -- `node_set_father(*(node_t **)dyn_array_at(this->childs, i), this->father);` for each child
  unfoldable pub hand_over : List ℕ → ℕ → W (Unit {0})
  hand_over [] father = pure tt
  hand_over (p ∷ ps) father = do on_nodes (set_father father p); hand_over ps father

  -- The insertion at the end of g_keep_childs, which is refused where that is NULL.
  abbrev pub queue_keep : List ℕ → Option (List ℕ) → Option (List ℕ)
  queue_keep ps none = none
  queue_keep ps (some qs) = some (qs ++ ps)

  -- keep_node_execute: the array's destructor destroys the children that have just been queued.
  unfoldable pub keep_execute : ℕ → ℕ → W (Unit {0})
  keep_execute depth this = do
    exited ← asking (λ kill. is_exit kill this)
    stop ← or_false exited
    if stop then pure tt else (do
      handshake this
      n ← on_nodes (load this)
      hand_over (slots_of n.childs) n.father
      (λ w. ok (tt, record w { keep_childs = queue_keep (slots_of n.childs) w.keep_childs }))
      on_nodes (destroy_slots (destroy false env.erases depth) (slots_of n.childs))
      on_nodes (modify (λ m. record m { childs = none }) this))

  -- `for(...) dyn_array_insert(father->childs, size, ...)` for each child
  unfoldable pub append_childs : List ℕ → ℕ → W (Unit {0})
  append_childs [] father = pure tt
  append_childs (p ∷ ps) father = do
    on_nodes (
        modify (λ m. record m { childs = insert_slot (length (slots_of m.childs)) p m.childs })
          father)
    append_childs ps father

  -- `while(temp != NULL && node_get_len(temp) != MORE) { …; temp = node_get_father(temp); }`
  unfoldable pub reset_len : ℕ → ℕ → W (Unit {0})
  reset_len zero temp = diverges
  reset_len (suc fuel) temp = if temp == 0 then pure tt else (do
    n ← on_nodes (load temp)
    if len_code n.len == len_code more
        then pure tt
        else (do on_nodes (set_len more temp); reset_len fuel n.father))

  -- alw_node_execute: node_destroy is given the array of children in place of a node, and reads its
  -- size of an object as an address.
  unfoldable pub alw_execute : ℕ → ℕ → W (Unit {0})
  alw_execute depth this = do
    exited ← asking (λ kill. is_exit kill this)
    stop ← or_false exited
    if stop then pure tt else (do
      handshake this
      n ← on_nodes (load this)
      hand_over (slots_of n.childs) n.father
      append_childs (slots_of n.childs) n.father
      (if length (slots_of n.childs) == 0 then pure tt else reset_len depth n.father)
      elim n.childs [
        | none ↦ on_nodes (modify (λ m. record m { childs = none }) this)
        | some _ ↦ undefined
      ])
