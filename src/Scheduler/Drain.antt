-- ===== src/Scheduler/Drain.antt =====
-- ManagerThread of msvl.c.
use lib_msvl.Base.{
  ℕ, zero, suc, ◌+◌, Bool, true, false, ◌||◌, Option, none, some, List, [], ◌∷◌, ◌==◌,
  if◌then◌else◌, length, out_of_fuel, ok, exit,
}
use mathlib.Core.Option
use lib_msvl.Node.Store.{leaf_type, empty, len_code, load, same_type}
use lib_msvl.Node.Check.{is_correct_and_exit}
use lib_msvl.Node.Destroy.{destroy}
use lib_msvl.Manager.Push.{Element}
use lib_msvl.Scheduler.World.{
  Env, W, pure, ◌>>=◌, ◌>>◌, undefined, diverges, aborts, world, on_nodes, asking,
}
use lib_msvl.Scheduler.Execute.{execute}
use lib_msvl.Scheduler.Update.{update_node, execute_keep_childs}

abbrev pub elements : Option (List (Option Element)) → List (Option Element)
elements none = []
elements (some es) = es

-- the elements in front of the last, and the last
abbrev pub back_of : List (Option Element) → Option (List (Option Element) × Option Element)
back_of [] = none
back_of (e ∷ []) = some ([], e)
back_of (e ∷ d ∷ es) = elim (back_of (d ∷ es)) [ none ↦ none | some r ↦ some (e ∷ r.0, r.1) ]

-- `g_is_output` is asked, and the state is printed and counted.
unfoldable pub show_state : Env → W (Unit {0})
show_state env w =
    if w.outputs
    then (if env.is_output w then ok (tt, record w { state_num = w.state_num + 1 }) else exit 0)
    else ok (tt, w)

module _ (env : Env) where
  -- an element of g_$$prsnt that $$Element_destroy has been given
  abbrev pub destroyed : ℕ → List (Option Element) → List (Option Element)
  destroyed i [] = []
  destroyed zero (e ∷ es) = none ∷ es
  destroyed (suc i) (e ∷ es) = e ∷ destroyed i es

  -- what is done for the thread of an element: its node is executed and updated
  unfoldable pub serve : ℕ → ℕ → W (Unit {0})
  serve fuel id = do
    w ← world
    if env.find w id == 0 then aborts else (do
      execute env fuel (env.find w id)
      update_node env fuel (env.find w id)
      w' ← world
      if w'.changed_node == 0 then pure tt else (do
        update_node env fuel w'.changed_node
        (λ v. ok (tt, record v { changed_node = 0 }))))

  -- The lines from SORT on and the loop `while(!dyn_array_empty(g_$$prsnt))`.
  -- dyn_array_extract_back leaves the array as it is, and what it copies may have been destroyed
  -- before.
  unfoldable pub drain : ℕ → W (Unit {0})
  drain zero = diverges
  drain (suc fuel) = do
    w ← world
    (if w.prj_node == 0
        then pure tt
        else (do execute env fuel w.prj_node; (λ v. ok (tt, record v { prj_node = 0 }))))
    w' ← world
    elim (back_of (elements w'.prsnt)) as (λ _. W (Unit {0})) [
      | none ↦ pure tt
      | some (es, none) ↦ undefined
      | some (es, some e) ↦ (do
        serve fuel e.thread_id
        (λ v. ok (tt, record v { prsnt = Option.map (destroyed (length es)) v.prsnt }))
        drain fuel)
    ]

  abbrev pub is_nil : List ℕ → Bool
  is_nil [] = true
  is_nil (p ∷ ps) = false

  abbrev pub queued : Option (List ℕ) → List ℕ
  queued none = []
  queued (some ps) = ps

  -- from SORT to the end of the loop's body
  unfoldable pub settle : ℕ → W (Unit {0})
  settle zero = diverges
  settle (suc fuel) = do
    drain fuel
    w ← world
    _ ← asking (λ kill. is_correct_and_exit kill fuel w.thread_root)
    if is_nil (queued w.keep_childs) then pure tt else (do execute_keep_childs; settle fuel)

  -- `do { … } while(true)`
  unfoldable pub manage : ℕ → W (Unit {0})
  manage zero = diverges
  manage (suc fuel) = do
    w ← world
    root ← on_nodes (load w.thread_root)
    if same_type root.new_type leaf_type || len_code root.len == len_code empty
        then pure tt
        else (do
          show_state env
          execute env fuel w.thread_root
          (λ v. ok (tt, record v { changed_node = 0; prj_node = 0 }))
          settle fuel
          manage fuel)

  -- `while(g_turn_id != g_manager_id) sched_yield();`
  unfoldable pub await_turn : W (Unit {0})
  await_turn w =
      if w.turn_id == w.manager_id
      then ok (tt, w)
      else elim (env.await w) [ none ↦ out_of_fuel | some w' ↦ ok (tt, w') ]

  unfoldable pub manager_thread : ℕ → W (Unit {0})
  manager_thread fuel = do
    await_turn
    w ← world
    if w.thread_root == 0 then pure tt else (do
      manage fuel
      v ← world
      on_nodes (destroy false env.erases fuel v.thread_root)
      (λ u. ok (tt, record u { thread_root = 0 })))
