-- ===== src/Predecessor/Tree.antt =====
-- The class Node of function.cpp, the tree that the vectors `childs` span, and the destructor. The
-- father of a node is the one whose `childs` hold it.
use lib_msvl.Base.{
  ℕ, suc, ◌≡◌, Bool, true, false, not, ◌&&◌, ◌||◌, List, [], ◌∷◌, ◌++◌, ◌==◌, if◌then◌else◌, Run,
  ok, fault, exit,
}
use lib_msvl.Base
use lib_msvl.Node.Store.{NodeLength, NodeType}
use lib_msvl.Node.Check.{esrch, einval}

-- the members of class Node besides `father` and `childs`
pub record ThreadNode : Type 0 where
  pub thread : ℕ
  pub type : NodeType
  pub new_type : NodeType
  pub len : NodeLength
  pub has_empty : Bool
  pub mutex : ℕ
  pub cond : ℕ
  pub is_init : Bool

mutual
  pub data ThreadTree : Type 0 where
    tree : ThreadNode → ThreadTrees → ThreadTree

  pub data ThreadTrees : Type 0 where
    nil : ThreadTrees
    cons : ThreadTree → ThreadTrees → ThreadTrees

abbrev pub node_of : ThreadTree → ThreadNode
node_of (tree n childs) = n

-- childs.size()
abbrev pub size : ThreadTrees → ℕ
size nil = 0
size (cons t ts) = suc (size ts)

-- what the destructor asks of the system
pub data Call : Type 0 where
  kill_thread join_thread destroy_mutex destroy_cond : ℕ → Call

-- The keys of threadIDToNode, and the calls so far.
pub record Registry : Type 0 where
  pub registered : ℕ → Bool
  pub calls : List Call

abbrev pub Act : Type 0 → Type 0
Act A = Registry → Run (A × Registry)

abbrev pub return : {A : Type 0} → A → Act A
return a r = ok (a, r)

infixl 5 ◌>>=◌ ◌>>◌
abbrev pub ◌>>=◌ : {A B : Type 0} → Act A → (A → Act B) → Act B
◌>>=◌ m f r = Base.◌>>=◌ (m r) (λ p. f p.0 p.1)

abbrev pub ◌>>◌ : {B : Type 0} → Act (Unit {0}) → Act B → Act B
m >> k = m >>= λ _. k

abbrev pub unregister : ℕ → (ℕ → Bool) → ℕ → Bool
unregister thread registered k = if k == thread then false else registered k

-- `assert(threadIDToNode.erase(thread) == 1)`: an assertion that fails ends the program, by
-- SIGABRT.
unfoldable pub erase : ℕ → Act (Unit {0})
erase thread r =
    if r.registered thread
    then ok (tt, record r { registered = unregister thread r.registered })
    else exit 134

unfoldable pub call : List Call → Act (Unit {0})
call cs r = ok (tt, record r { calls = r.calls ++ cs })

module _ (kill : ℕ → ℕ) where
  -- isExit, where `kill` is pthread_kill with the signal 0
  unfoldable pub has_exited : ThreadNode → Bool
  has_exited n = if n.thread == 0 then true else (kill n.thread == esrch || kill n.thread == einval)

  -- What ~Node does behind the erasure from the map.
  unfoldable pub release : Bool → ThreadNode → List Call
  release is_root n =
      (if not (has_exited n) && not is_root then kill_thread n.thread ∷ [] else [])
      ++ (join_thread n.thread ∷ [])
      ++ (if n.mutex == 0 then [] else destroy_mutex n.mutex ∷ [])
      ++ (if n.cond == 0 then [] else destroy_cond n.cond ∷ [])

  -- ~Node while isCopied is false, which it is except inside getNewNode. Only threadRoot is a root.
  unfoldable mutual
    pub destroy_tree : Bool → ThreadTree → Act (Unit {0})
    destroy_tree is_root (tree n childs) = do
      destroy_trees childs
      erase n.thread
      call (release is_root n)

    pub destroy_trees : ThreadTrees → Act (Unit {0})
    destroy_trees nil = return tt
    destroy_trees (cons t ts) = do destroy_tree false t; destroy_trees ts
