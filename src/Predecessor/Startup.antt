-- ===== src/Predecessor/Startup.antt =====
-- Init, MyCreateThread, MyPauseThread, MyPauseThreadInit, MyWaitForObject, GetMsvVar and $$Push of
-- function.cpp, up to the point where the calling thread blocks. The enumerator LEAF stands for the
-- type 5, the manager.
use lib_msvl.Base.{
  ℕ, Bool, true, false, none, some, List, [], ◌∷◌, ◌++◌, ◌==◌, if◌then◌else◌, ok, exit, fault, Run,
}
use lib_msvl.Base.Stateful.{return, diverges, state, change, ends_program, ◌>>=◌, ◌>>◌}
use lib_msvl.Node.Store.{NodeType, and_type, pal_type, prj_type, leaf_type, same_type}
use lib_msvl.Scheduler.Startup.{Threads}
use lib_msvl.Predecessor.Objects.{Heap, Program, H, load, modify, modify_node}
use lib_msvl.Predecessor.Renewal.{Arguments, new_node_of}
use lib_msvl.Predecessor.Managing.{managing}

-- `threadIDToNode.at(id)`, whose exception nothing catches
unfoldable pub node_of_thread : ℕ → H ℕ
node_of_thread id h = elim (h.thread_id_to_node id) as (λ _. Run (ℕ × Heap)) [
  | none ↦ exit 134
  | some p ↦ ok (p, h)
]

abbrev pub first_node : Threads → ℕ → Arguments
first_node lib father = record {
  thread = lib.thread;
  father = father;
  childs = [];
  mutex = lib.mutex;
  cond = lib.cond;
  is_init = false;
}

module _ (prog : Program) (lib : Threads) where
  -- the switch of Init
  unfoldable pub root_of : NodeType → H ℕ
  root_of and_type = new_node_of prog and_type (record (first_node lib 0) { thread = lib.self })
  root_of pal_type = new_node_of prog pal_type (record (first_node lib 0) { thread = lib.self })
  root_of prj_type = new_node_of prog prj_type (record (first_node lib 0) { thread = lib.self })
  root_of _ = ends_program 255

  -- Init, where the new thread is the manager's
  unfoldable pub init_root : NodeType → H (Unit {0})
  init_root type =
      if lib.created
      then (do
        change (λ h. record h { manager = lib.thread })
        root ← root_of type
        change (λ h. record h { thread_root = root }))
      else ends_program 255

  -- the part of MyCreateThread that starts the thread and adds its leaf
  unfoldable pub add_leaf : ℕ → H (Unit {0})
  add_leaf father =
      if lib.created
      then (do
        child ← new_node_of prog leaf_type (first_node lib father)
        modify (λ o. record o { childs = o.childs ++ (child ∷ []) }) father)
      else ends_program 0

  -- MyPauseThread: the turn goes back, and the thread waits for its own.
  unfoldable pub my_pause_thread : H (Unit {0})
  my_pause_thread = do
    node ← node_of_thread lib.self
    _ ← load node
    change (λ h. record h { turn = h.manager })

  -- MyPauseThreadInit, whose loop ends when the map has the thread: it then waits for its turn.
  unfoldable pub my_pause_thread_init : H (Unit {0})
  my_pause_thread_init = do
    h ← state
    elim (h.thread_id_to_node lib.self) as (λ _. H (Unit {0})) [
      | none ↦ diverges
      | some node ↦ modify_node (λ n. record n { is_init = true }) node
    ]

  -- MyWaitForObject, with its static flag: the first call hands the turn to the manager and joins
  -- it.
  unfoldable pub my_wait_for_object : ℕ → Bool → H Bool
  my_wait_for_object fuel true = do my_pause_thread; return true
  my_wait_for_object fuel false = do
    change (λ h. record h { turn = h.manager })
    managing prog fuel
    change (λ h. record h { manager = 0 })
    return false

-- MyCreateThread, where `addr` says whether the thread's function is given. Init and the rest meet
-- the threads library apart.
unfoldable pub my_create_thread : Program → Threads → Threads → Bool → NodeType → H (Unit {0})
my_create_thread prog init_lib lib addr type = if same_type type leaf_type then return tt else (do
  h ← state
  (if h.thread_root == 0 then init_root prog init_lib type else return tt)
  father ← node_of_thread lib.self
  modify_node (λ n. record n { new_type = type }) father
  if addr then add_leaf prog lib father else return tt)

-- GetMsvVar, with memory for a bool or without; `given` says whether no argument is NULL.
unfoldable pub get_variables : Bool → Bool → H (Unit {0})
get_variables memory given h =
    if memory then ok (tt, record h { outputs = given; path_false = some false }) else fault

-- $$Push; `words` are those that `>>` of an istringstream reads off a string.
unfoldable pub push_entry : (List ℕ → List (List ℕ)) → ℕ → List ℕ → List ℕ → ℕ → H (Unit {0})
push_entry words self left right priority = change (λ h. record h {
  prsnt =
      h.prsnt
      ++ (record { left = left; right = words right; priority = priority; thread_id = self } ∷ []);
})
