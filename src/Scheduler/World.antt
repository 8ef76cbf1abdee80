-- ===== src/Scheduler/World.antt =====
-- The globals of msvl.c that the scheduling thread reads and writes, with the nodes, and what the
-- rest of the program, the threads library and the hash map of nodes may do to them.
use lib_msvl.Base.{
  ◌≡◌, ℕ, Bool, true, false, Option, none, some, List, [], if◌then◌else◌, Run, ok, fault, exit,
  out_of_fuel, ◌≡◌, ap,
}
use lib_msvl.Base
use lib_msvl.Node.Store.{load, load-some, bind-ok, Node, Store, M}
use lib_msvl.Node.Create.{Answers}
use lib_msvl.Manager.Push.{Element}

-- `exits t` is what `pthread_kill(t, 0)` answers. An element of `prsnt` that has been destroyed is
-- `none`. `outputs` says whether g_is_output, g_output and g_state_num are all set.
pub record World : Type 0 where
  pub nodes : Store
  pub exits : ℕ → ℕ
  pub turn_id : ℕ
  pub manager_id : ℕ
  pub thread_root : ℕ
  pub g_false : Option Bool
  pub keep_childs : Option (List ℕ)
  pub prsnt : Option (List (Option Element))
  pub changed_node : ℕ
  pub prj_node : ℕ
  pub outputs : Bool
  pub state_num : ℕ

-- How a thread uses its turn: it pauses, it ends, or it does neither for ever.
pub data Slice : Type 0 where
  pauses : World → Slice
  ends : World → Slice
  keeps_on : Slice

-- What is not in the repository: `slice t w` is what thread `t` does from `w` on when it has the
-- turn; `arrive t w` the world when `t` has reached MyPauseThreadInit, if it does; `await w` the
-- world when the turn has come to the manager, if it does; `answers` how malloc and the map take a
-- new node; `erases` whether the map finds the thread of a node that is taken out; `find` the node
-- that the map has for a thread, or 0; `is_output` the program's own function.
pub record Env : Type 0 where
  pub slice : ℕ → World → Slice
  pub arrive : ℕ → World → Option World
  pub await : World → Option World
  pub answers : World → Answers
  pub erases : Bool
  pub find : World → ℕ → ℕ
  pub is_output : World → Bool

abbrev pub W : Type 0 → Type 0
W A = World → Run (A × World)

abbrev pub pure : {A : Type 0} → A → W A
pure a w = ok (a, w)

infixl 5 ◌>>=◌ ◌>>◌
abbrev pub ◌>>=◌ : {A B : Type 0} → W A → (A → W B) → W B
◌>>=◌ m f w = Base.◌>>=◌ (m w) (λ r. f r.0 r.1)

abbrev pub ◌>>◌ : {B : Type 0} → W (Unit {0}) → W B → W B
m >> k = m >>= λ _. k

abbrev pub undefined : {A : Type 0} → W A
undefined w = fault

abbrev pub diverges : {A : Type 0} → W A
diverges w = out_of_fuel

-- a failed assert
abbrev pub aborts : {A : Type 0} → W A
aborts w = exit 134

abbrev pub world : W World
world w = ok (w, w)

-- an operation on the nodes
unfoldable pub on_nodes : {A : Type 0} → M A → W A
on_nodes m w = Base.◌>>=◌ (m w.nodes) (λ r. ok (r.0, record w { nodes = r.1 }))

-- an operation on the nodes that asks which threads are there
unfoldable pub asking : {A : Type 0} → ((ℕ → ℕ) → M A) → W A
asking f w = on_nodes (f w.exits) w

-- `*g_false`
unfoldable pub read_false : W Bool
read_false w = elim w.g_false [ none ↦ fault | some b ↦ ok (b, w) ]

-- `a || *g_false`
unfoldable pub or_false : Bool → W Bool
or_false true = pure true
or_false false = read_false

-- a piece of the nodes that returns
pub on_nodes-ok :
    {A : Type 0} (m : M A) (w : World) {a : A} {s : Store}
    → m w.nodes ≡ ok (a, s)
    → on_nodes m w ≡ ok (a, record w { nodes = s })
unfolding on_nodes
on_nodes-ok m w e = bind-ok _ e

pub on_nodes-load :
    (w : World) (p : ℕ) {n : Node} → w.nodes p ≡ some n → on_nodes (load p) w ≡ ok (n, w)
on_nodes-load w p e = on_nodes-ok (load p) w (load-some w.nodes p e)
