-- ===== src/Predecessor/Excute.antt =====
-- `excute` of the classes of function.cpp. `run` is that of a child, and `fuel` bounds the rounds
-- of each loop and the depth of the checks.
use lib_msvl.Base.{
  ℕ, zero, suc, ◌+◌, Bool, true, false, not, ◌||◌, none, some, [], ◌++◌, ◌==◌, leb, if◌then◌else◌,
  length, set, ok, out_of_fuel, Run,
}
use lib_msvl.Base.Stateful.{return, undefined, diverges, change, ◌>>=◌, ◌>>◌}
use lib_msvl.Node.Store.{
  NodeType, and_type, pal_type, prj_type, keep_type, alw_type, leaf_type, root_type, more, len_code,
  same_type,
}
use lib_msvl.Predecessor.Objects.{
  Heap, hands_back, finishes, runs_on, Program, H, load, modify, modify_node, childs_of, child_at,
  or_false,
}
use lib_msvl.Predecessor.OnHeap.{delete_node, erase_child, exited_at, for_each, is_correct}
use lib_msvl.Predecessor.Renewal.{set_father_node, renewed_node}

-- whether the node is to become one of another class
unfoldable pub is_changed : ℕ → H Bool
is_changed p = do o ← load p; return (not (same_type o.node.type o.node.new_type))

-- The climb `while (temp != NULL && temp->getNodeLength() != MORE)`, which sets the lengths to
-- MORE.
unfoldable pub climb_more : ℕ → ℕ → H (Unit {0})
climb_more zero temp = diverges
climb_more (suc fuel) temp = if temp == 0 then return tt else (do
  o ← load temp
  if len_code o.node.len == 0
      then return tt
      else (do modify_node (λ n. record n { len = more }) temp; climb_more fuel o.father))

module _ (prog : Program) where
  unfoldable pub arrival : ℕ → H (Unit {0})
  arrival thread h = elim (prog.arrive thread h) as (λ _. Run (Unit {0} × Heap)) [
    | none ↦ out_of_fuel
    | some h' ↦ ok (tt, h')
  ]

  -- `while(!this->isInit) sched_yield();`
  unfoldable pub wait_is_init : ℕ → H (Unit {0})
  wait_is_init this = do o ← load this; if o.node.is_init then return tt else arrival o.node.thread

  -- From the signal to the end of the loop that waits for the turn: MyPauseThread gives it back,
  -- and a thread that has ended is found by isExit.
  unfoldable pub give_part : ℕ → H (Unit {0})
  give_part thread h =
      elim (prog.part thread (record h { turn = thread })) as (λ _. Run (Unit {0} × Heap)) [
        | hands_back h' ↦ ok (tt, record h' { turn = h'.manager })
        | finishes h' ↦ ok (tt, record h' { turn = h'.manager })
        | runs_on ↦ out_of_fuel
      ]

  unfoldable pub switch_to : ℕ → H (Unit {0})
  switch_to this = do wait_is_init this; o ← load this; give_part o.node.thread

  -- LeafNode::excute
  unfoldable pub leaf_excute : ℕ → H (Unit {0})
  leaf_excute this = do
    exited ← exited_at this
    stop ← or_false exited
    o ← load this
    if stop || not (len_code o.node.len == 0) then return tt else switch_to this

  -- KeepNode::excute
  unfoldable pub keep_excute : ℕ → H (Unit {0})
  keep_excute this = do
    exited ← exited_at this
    stop ← or_false exited
    if stop then return tt else (do
      switch_to this
      o ← load this
      for_each (set_father_node o.father) o.childs
      change (λ h. record h { keep_childs = h.keep_childs ++ o.childs })
      modify (λ x. record x { childs = [] }) this)

  -- AlwNode::excute
  unfoldable pub alw_excute : ℕ → ℕ → H (Unit {0})
  alw_excute fuel this = do
    exited ← exited_at this
    stop ← or_false exited
    if stop then return tt else (do
      switch_to this
      o ← load this
      for_each (set_father_node o.father) o.childs
      modify (λ x. record x { childs = x.childs ++ o.childs }) o.father
      (if length o.childs == 0 then return tt else climb_more fuel o.father)
      modify (λ x. record x { childs = [] }) this)

  module _ (run : ℕ → H (Unit {0})) where
    -- `while (i<childs.size()) { … }`: a child that is to become one of another class is replaced,
    -- and the new one is next. PalNode's loop goes by an iterator, whose vector is taken not to
    -- move.
    unfoldable pub excute_childs : ℕ → ℕ → ℕ → H (Unit {0})
    excute_childs zero this i = diverges
    excute_childs (suc fuel) this i = do
      ps ← childs_of this
      if leb (length ps) i then return tt else (do
        child ← child_at ps i
        run child
        changed ← is_changed child
        if changed
            then (do
              new ← renewed_node prog child
              modify (λ o. record o { childs = set o.childs i new }) this
              excute_childs fuel this i)
            else excute_childs fuel this (i + 1))

    -- AndNode::excute
    unfoldable pub and_excute : ℕ → ℕ → H (Unit {0})
    and_excute fuel this = do
      ended ← is_correct (suc fuel) this
      stop ← or_false ended
      if stop
          then modify_node (λ n. record n { new_type = leaf_type }) this
          else excute_childs fuel this 0

    -- PalNode::excute, with the same steps as AndNode::excute
    unfoldable pub pal_excute : ℕ → ℕ → H (Unit {0})
    pal_excute fuel this = and_excute fuel this

    -- `childs[i]->excute(); while (childs[i] is to change) { childs[i] = getNewNode(childs[i]);
    -- childs[i]->excute(); }`
    unfoldable pub excute_child : ℕ → ℕ → ℕ → H (Unit {0})
    excute_child zero this i = diverges
    excute_child (suc fuel) this i = do
      ps ← childs_of this
      child ← child_at ps i
      run child
      ps' ← childs_of this
      child' ← child_at ps' i
      changed ← is_changed child'
      if changed
          then (do
            new ← renewed_node prog child'
            modify (λ o. record o { childs = set o.childs i new }) this
            excute_child fuel this i)
          else return tt

    unfoldable pub mark_ext_Q : Bool → ℕ → H (Unit {0})
    mark_ext_Q b this = modify (λ o. record o { ext_Q = b }) this

    -- `while (childs[1]->getNodeLength() == EMPTY)`
    unfoldable pub skip_ended : ℕ → ℕ → H (Unit {0})
    skip_ended zero this = diverges
    skip_ended (suc fuel) this = do
      ps ← childs_of this
      second ← child_at ps 1
      o ← load second
      if len_code o.node.len == 1
          then (do
            mark_ext_Q true this
            delete_node fuel second
            erase_child this 1
            qs ← childs_of this
            if length qs == 1
                then return tt
                else (do excute_child fuel this 1; skip_ended fuel this))
          else return tt

    -- from `hasExtQ = extQ` on
    unfoldable pub excute_q : ℕ → ℕ → H (Unit {0})
    excute_q fuel this = do
      modify (λ o. record o { has_ext_Q = o.ext_Q }) this
      o ← load this
      if not o.ext_Q then return tt else (do
        first ← child_at o.childs 0
        ended ← is_correct fuel first
        if ended then return tt else (do excute_child fuel this 0; mark_ext_Q false this))

    -- PrjNode::excute
    unfoldable pub prj_excute : ℕ → ℕ → H (Unit {0})
    prj_excute fuel this = do
      ended ← is_correct (suc fuel) this
      stop ← or_false ended
      if stop then modify_node (λ n. record n { new_type = leaf_type }) this else (do
        ps ← childs_of this
        (if leb (length ps) 1
            then mark_ext_Q true this
            else (do excute_child fuel this 1; skip_ended fuel this))
        excute_q fuel this)

    unfoldable pub excute_by : ℕ → NodeType → ℕ → H (Unit {0})
    excute_by fuel and_type this = and_excute fuel this
    excute_by fuel pal_type this = pal_excute fuel this
    excute_by fuel prj_type this = prj_excute fuel this
    excute_by fuel keep_type this = keep_excute this
    excute_by fuel alw_type this = alw_excute fuel this
    excute_by fuel leaf_type this = leaf_excute this
    excute_by fuel root_type this = undefined

-- excute
unfoldable pub excute : Program → ℕ → ℕ → H (Unit {0})
excute prog zero this = diverges
excute prog (suc fuel) this = do
  o ← load this
  excute_by prog (excute prog fuel) fuel o.node.type this
