-- ===== src/Scheduler/Startup.antt =====
-- Init, MyCreateThread, MyPauseThread, MyPauseThreadInit and MyWaitForObject of msvl.c, up to the
-- point where the calling thread blocks. The enumerator LEAF stands for the type 5, the manager.
use lib_msvl.Base.{ℕ, Bool, true, false, Option, none, ◌==◌, if◌then◌else◌, ok, exit}
use lib_msvl.Node.Store.{
  Childs, M, NodeType, and_type, pal_type, prj_type, leaf_type, load, same_type,
}
use lib_msvl.Node.Fields.{set_new_type, set_is_init}
use lib_msvl.Node.Children.{add_child}
use lib_msvl.Node.Create.{
  Answers, and_node_create, pal_node_create, prj_node_create, leaf_node_create,
}
use lib_msvl.Scheduler.World.{Env, W, pure, ◌>>=◌, ◌>>◌, diverges, world, on_nodes}
use lib_msvl.Scheduler.Drain.{manager_thread}

-- What the threads library hands to one call: whether pthread_create succeeds and the new thread's
-- id; the caller's own id; and the new mutex and condition.
pub record Threads : Type 0 where
  pub created : Bool
  pub thread : ℕ
  pub self : ℕ
  pub mutex : ℕ
  pub cond : ℕ

module _ (env : Env) (lib : Threads) where
  -- the switch of Init; the types from KEEP on are refused
  unfoldable pub create_root : Answers → NodeType → M (ℕ × Option Childs)
  create_root ans and_type = and_node_create ans lib.self 0 none false lib.mutex lib.cond
  create_root ans pal_type = pal_node_create ans lib.self 0 none false lib.mutex lib.cond
  create_root ans prj_type = prj_node_create ans lib.self 0 none false lib.mutex lib.cond
  create_root ans _ = λ s. exit 1

  -- Init, where the new thread is the manager's
  unfoldable pub init : NodeType → W (Unit {0})
  init type =
      if lib.created
      then (do
        (λ w. ok (tt, record w { manager_id = lib.thread }))
        w ← world
        root ← on_nodes (create_root (env.answers w) type)
        if root.0 == 0 then (λ v. exit 1) else (λ v. ok (tt, record v { thread_root = root.0 })))
      else (λ w. exit 1)

  -- the part of MyCreateThread that starts the thread and adds its leaf
  unfoldable pub start_leaf : ℕ → W (Unit {0})
  start_leaf father =
      if lib.created
      then (do
        w ← world
        child ←
            on_nodes
              (leaf_node_create (env.answers w) lib.thread father none false lib.mutex lib.cond)
        on_nodes (add_child child.0 father))
      else (λ w. exit 0)

  -- MyPauseThread: the turn goes back, and the thread waits for its own.
  unfoldable pub pause_thread : W (Unit {0})
  pause_thread = do
    w ← world
    _ ← on_nodes (load (env.find w lib.self))
    (λ v. ok (tt, record v { turn_id = v.manager_id }))

  -- MyPauseThreadInit: the loop that looks for the thread's node ends when there is one.
  unfoldable pub pause_thread_init : W (Unit {0})
  pause_thread_init = do
    w ← world
    if env.find w lib.self == 0 then diverges else (do
      on_nodes (set_is_init true (env.find w lib.self))
      (λ v. ok (tt, record v { turn_id = v.manager_id })))

  -- MyWaitForObject, with its static flag: the first call hands the turn to the manager and joins
  -- it.
  unfoldable pub wait_for_object : ℕ → Bool → W Bool
  wait_for_object fuel true = do pause_thread; pure true
  wait_for_object fuel false = do
    (λ w. ok (tt, record w { turn_id = w.manager_id }))
    manager_thread env fuel
    (λ w. ok (tt, record w { manager_id = 0 }))
    pure false

-- MyCreateThread. `id` is looked up without having been set: `father` is what the map has for it,
-- and `addr` says whether the thread's function is given. Init and the rest meet the threads
-- library apart.
unfoldable pub create_thread : Env → Threads → Threads → ℕ → Bool → NodeType → W (Unit {0})
create_thread env init_lib lib father addr type = if same_type type leaf_type then pure tt else (do
  w ← world
  (if w.thread_root == 0 then init env init_lib type else pure tt)
  if father == 0 then pure tt else (do
    on_nodes (set_new_type type father)
    if addr then start_leaf env lib father else pure tt))
