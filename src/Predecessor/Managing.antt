-- ===== src/Predecessor/Managing.antt =====
-- updateNode, excuteKeepChilds and ManagerThread of function.cpp.
use lib_msvl.Base.{
  ℕ, zero, suc, ◌+◌, Bool, true, false, not, ◌||◌, Option, none, some, List, [], ◌∷◌, ◌++◌, ◌==◌,
  if◌then◌else◌, length, set, leb, ok, exit, out_of_fuel, Run,
}
use lib_msvl.Base.Stateful.{return, undefined, diverges, state, change, ends_program, ◌>>=◌, ◌>>◌}
use lib_msvl.Node.Store.{and_type, leaf_type, len_code, same_type}
use lib_msvl.Predecessor.Objects.{Pushed, Heap, Program, H, load, modify, childs_of, child_at}
use lib_msvl.Predecessor.OnHeap.{delete_node, is_correct}
use lib_msvl.Predecessor.Renewal.{renewed_node}
use lib_msvl.Predecessor.Excute.{is_changed, climb_more, excute}

-- `for (i = 0 ; childs[i] != node; ++i);`, which reads past the end of the vector
unfoldable pub place_of : ℕ → ℕ → List ℕ → H ℕ
place_of node i [] = undefined
place_of node i (p ∷ ps) = if p == node then return i else place_of node (i + 1) ps

-- The root of the AND that a child of a KEEP stands in, `fuel` bounding the climb.
unfoldable pub and_father : ℕ → ℕ → H ℕ
and_father zero p = diverges
and_father (suc fuel) p = do
  o ← load p
  if o.father == 0 then return p else (do
    f ← load o.father
    if same_type f.node.type and_type then and_father fuel o.father else return p)

-- the vector in front of its last element, and that element
abbrev pub popped : List Pushed → Option (List Pushed × Pushed)
popped [] = none
popped (e ∷ []) = some ([], e)
popped (e ∷ d ∷ es) = elim (popped (d ∷ es)) as (λ _. Option (List Pushed × Pushed)) [
  | none ↦ none
  | some r ↦ some (e ∷ r.0, r.1)
]

abbrev pub is_nil : List ℕ → Bool
is_nil [] = true
is_nil (p ∷ ps) = false

module _ (prog : Program) where
  -- the do-while loop of updateNode
  unfoldable pub renew_at : ℕ → ℕ → ℕ → H (Unit {0})
  renew_at zero i temp = diverges
  renew_at (suc fuel) i temp = do
    new ← renewed_node prog temp
    o ← load new
    modify (λ f. record f { childs = set f.childs i new }) o.father
    excute prog fuel new
    changed ← is_changed new
    if changed then renew_at fuel i new else return tt

  -- updateNode
  unfoldable pub update_at : ℕ → ℕ → H (Unit {0})
  update_at fuel node = if node == 0 then return tt else (do
    changed ← is_changed node
    h ← state
    if not changed || node == h.thread_root then return tt else (do
      o ← load node
      ps ← childs_of o.father
      i ← place_of node 0 ps
      renew_at fuel i node))

  -- One round of the loop of excuteKeepChilds.
  unfoldable pub excute_kept : ℕ → ℕ → H (Unit {0})
  excute_kept fuel node = do
    root ← and_father fuel node
    r ← load root
    if len_code r.node.len == 1 then delete_node fuel node else (do
      o ← load node
      modify (λ f. record f { childs = f.childs ++ (node ∷ []) }) o.father
      climb_more fuel o.father
      excute prog fuel node
      update_at fuel node
      o' ← load node
      update_at fuel o'.father)

  -- The loop goes on with what its rounds add to keepChilds.
  unfoldable pub kept_from : ℕ → ℕ → H (Unit {0})
  kept_from zero i = diverges
  kept_from (suc fuel) i = do
    h ← state
    if leb (length h.keep_childs) i
        then return tt
        else (do node ← child_at h.keep_childs i; excute_kept fuel node; kept_from fuel (i + 1))

  -- excuteKeepChilds
  unfoldable pub excute_keep_childs : ℕ → H (Unit {0})
  excute_keep_childs fuel = do kept_from fuel 0; change (λ h. record h { keep_childs = [] })

  -- what the loop does for the node of an element's thread
  unfoldable pub serve_found : ℕ → Option ℕ → H (Unit {0})
  serve_found fuel none = ends_program 134
  serve_found fuel (some node) = do
    excute prog fuel node
    update_at fuel node
    h ← state
    if h.changed_node == 0
        then return tt
        else (do update_at fuel h.changed_node; change (λ v. record v { changed_node = 0 }))

  unfoldable pub serve_thread : ℕ → ℕ → H (Unit {0})
  serve_thread fuel id = do h ← state; serve_found fuel (h.thread_id_to_node id)

  -- what stands behind the label SORT
  unfoldable pub excute_prj : ℕ → H (Unit {0})
  excute_prj fuel = do
    h ← state
    if h.prj_node == 0
        then return tt
        else (do excute prog fuel h.prj_node; change (λ v. record v { prj_node = 0 }))

  -- the last element, which is taken out, and what `rest` does behind it
  unfoldable pub serve_last : ℕ → H (Unit {0}) → Option (List Pushed × Pushed) → H (Unit {0})
  serve_last fuel rest none = return tt
  serve_last fuel rest (some (es, e)) = do
    change (λ v. record v { prsnt = es })
    serve_thread fuel e.thread_id
    rest

  -- From SORT to the end of the loop `while (!$$prsnt.empty())`. Each round begins at SORT: where
  -- the code does not go there, prjNode is NULL, and nothing stands between.
  unfoldable pub drain_prsnt : ℕ → H (Unit {0})
  drain_prsnt zero = diverges
  drain_prsnt (suc fuel) = do
    excute_prj fuel
    h ← state
    serve_last fuel (drain_prsnt fuel) (popped h.prsnt)

  -- from SORT to the end of the body of `do … while (true)`
  unfoldable pub settle_state : ℕ → H (Unit {0})
  settle_state zero = diverges
  settle_state (suc fuel) = do
    drain_prsnt fuel
    h ← state
    _ ← is_correct fuel h.thread_root
    h' ← state
    if is_nil h'.keep_childs then return tt else (do excute_keep_childs fuel; settle_state fuel)

  -- IsOutput is asked, and the state is printed and counted.
  unfoldable pub put_state : H (Unit {0})
  put_state h =
      if h.outputs
      then (if prog.is_output h then ok (tt, record h { state_num = h.state_num + 1 }) else exit 0)
      else ok (tt, h)

  -- `do … while (true)`
  unfoldable pub states : ℕ → H (Unit {0})
  states zero = diverges
  states (suc fuel) = do
    h ← state
    root ← load h.thread_root
    if same_type root.node.new_type leaf_type || len_code root.node.len == 1 then return tt else (do
      put_state
      excute prog fuel h.thread_root
      change (λ v. record v { changed_node = 0; prj_node = 0 })
      settle_state fuel
      states fuel)

  -- `while(turn != manager) sched_yield();`
  unfoldable pub wait_turn : H (Unit {0})
  wait_turn h =
      if h.turn == h.manager
      then ok (tt, h)
      else elim (prog.await h) as (λ _. Run (Unit {0} × Heap)) [
        | none ↦ out_of_fuel
        | some h' ↦ ok (tt, h')
      ]

  -- ManagerThread
  unfoldable pub managing : ℕ → H (Unit {0})
  managing fuel = do
    wait_turn
    h ← state
    if h.thread_root == 0 then return tt else (do
      states fuel
      h' ← state
      delete_node fuel h'.thread_root
      change (λ v. record v { thread_root = 0 }))
