-- ===== src/Predecessor/Objects.antt =====
-- The objects and the static variables of function.cpp, and what the rest of the program and the
-- threads library may do to them.
use lib_msvl.Base.{
  ℕ, Bool, true, false, Option, none, some, List, ◌==◌, ◌≡◌, if◌then◌else◌, Run, ok, fault, deref,
  ap, get_elem?,
}
use lib_msvl.Base.Stateful.{Stateful, return, undefined, change, ◌>>=◌}
use lib_msvl.Predecessor.Tree.{ThreadNode, Call}

-- An object of class Node; `ext_Q` and `has_ext_Q` are those of PrjNode. Its class is the one that
-- `type` names.
pub record Object : Type 0 where
  pub node : ThreadNode
  pub father : ℕ
  pub childs : List ℕ
  pub ext_Q : Bool
  pub has_ext_Q : Bool

-- what $$Push collects
pub record Pushed : Type 0 where
  pub left : List ℕ
  pub right : List (List ℕ)
  pub priority : ℕ
  pub thread_id : ℕ

-- The static variables, with the objects by address. `exits t` is what `pthread_kill(t, 0)`
-- answers, `path_false` the block of pFalse, and `outputs` whether GlbOutput, IsOutput and stateNum
-- are set.
pub record Heap : Type 0 where
  pub object : ℕ → Option Object
  pub thread_id_to_node : ℕ → Option ℕ
  pub changed_node : ℕ
  pub prj_node : ℕ
  pub exits : ℕ → ℕ
  pub turn : ℕ
  pub manager : ℕ
  pub thread_root : ℕ
  pub path_false : Option Bool
  pub keep_childs : List ℕ
  pub prsnt : List Pushed
  pub outputs : Bool
  pub state_num : ℕ
  pub calls : List Call

-- `p->…`, where no object stands at NULL or at an address that is not one
abbrev pub object_of : Heap → ℕ → Run Object
object_of h p = deref (h.object p)

abbrev pub at_address : ℕ → Option Object → (ℕ → Option Object) → ℕ → Option Object
at_address p x object q = if q == p then x else object q

abbrev pub put : ℕ → ThreadNode → Object → Heap → Heap
put p n o h = record h { object = at_address p (some (record o { node = n })) h.object }

abbrev pub H : Type 0 → Type 0
H A = Stateful Heap A

unfoldable pub load : ℕ → H Object
load p h = elim (h.object p) [ none ↦ fault | some o ↦ ok (o, h) ]

unfoldable pub store : ℕ → Option Object → H (Unit {0})
store p x = change (λ h. record h { object = at_address p x h.object })

-- `p->member = …`
unfoldable pub modify : (Object → Object) → ℕ → H (Unit {0})
modify f p = do o ← load p; store p (some (f o))

unfoldable pub modify_node : (ThreadNode → ThreadNode) → ℕ → H (Unit {0})
modify_node f p = modify (λ o. record o { node = f o.node }) p

-- `childs[i]`, where no element stands past the end
abbrev pub child_at : List ℕ → ℕ → H ℕ
child_at ps i = elim (get_elem? ps i) as (λ _. H ℕ) [ none ↦ undefined | some p ↦ return p ]

unfoldable pub childs_of : ℕ → H (List ℕ)
childs_of p = do o ← load p; return o.childs

-- `*pFalse`
unfoldable pub read_false : H Bool
read_false h = elim h.path_false [ none ↦ fault | some b ↦ ok (b, h) ]

-- `b || *pFalse`
unfoldable pub or_false : Bool → H Bool
or_false true = return true
or_false false = read_false

-- How a thread uses its turn: it calls MyPauseThread, it ends, or it does neither for ever.
pub data Part : Type 0 where
  hands_back : Heap → Part
  finishes : Heap → Part
  runs_on : Part

-- What is not in the repository: `part t h` is what thread `t` does from `h` on when it has the
-- turn; `arrive t h` the state when `t` has reached MyPauseThreadInit, if it does; `await h` the
-- state when the turn has come to the manager, if it does; `new_node h` the address that `new`
-- gives, if it does not throw; `junk` what a member holds that no constructor sets; `is_output`
-- IsOutput.
pub record Program : Type 0 where
  pub part : ℕ → Heap → Part
  pub arrive : ℕ → Heap → Option Heap
  pub await : Heap → Option Heap
  pub new_node : Heap → Option ℕ
  pub junk : Bool
  pub is_output : Heap → Bool

pub load-some : (h : Heap) (p : ℕ) {o : Object} → h.object p ≡ some o → load p h ≡ ok (o, h)
unfolding load
load-some h p e =
    ap (λ x. elim x as (λ _. Run (Object × Heap)) [ none ↦ fault | some o ↦ ok (o, h) ]) e
