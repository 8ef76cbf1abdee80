-- ===== src/Predecessor/Count.antt =====
-- threadIDToNode of function.cpp against the tree of threads, through ~Node.
use lib_msvl.Base.{
  ℕ, suc, ◌+◌, ◌≡◌, ◌≢◌, ◌≤◌, refl, sym, subst, ap, ◌∙◌, Bool, true, false, not, ◌&&◌, ◌||◌,
  Bool-cases, inl, inr, List, ◌++◌, ◌==◌, eq→==, ne→==, ==→eq, if◌then◌else◌, Run, ok, fault, arith,
}
use lib_msvl.Base
use lib_msvl.Node.Store.{
  NodeType, and_type, pal_type, prj_type, keep_type, alw_type, leaf_type, root_type, bind-ok,
}
use lib_msvl.Predecessor.Tree.{
  ThreadTree, tree, ThreadTrees, nil, cons, Registry, call, erase, unregister, destroy_tree,
  destroy_trees,
}

abbrev pub one : ℕ → ℕ → ℕ
one k j = if k == j then 1 else 0

-- how many nodes of the tree have the thread `k`
unfoldable mutual
  pub occurs : ℕ → ThreadTree → ℕ
  occurs k (tree n childs) = one k n.thread + occurs_all k childs

  pub occurs_all : ℕ → ThreadTrees → ℕ
  occurs_all k nil = 0
  occurs_all k (cons t ts) = occurs k t + occurs_all k ts

abbrev pub present : Bool → ℕ
present true = 1
present false = 0

-- The map has exactly the threads that `f` counts, each once.
abbrev pub Holds : (ℕ → ℕ) → Registry → Type 0
Holds f r = (k : ℕ) → f k ≡ present (r.registered k)

-- No node is of the abstract class, and a PrjNode has the child that stands for its q.
abbrev pub HasClass : NodeType → ThreadTrees → Type 0
HasClass and_type ts = Unit
HasClass pal_type ts = Unit
HasClass prj_type nil = false ≡ true
HasClass prj_type (cons t ts) = Unit
HasClass keep_type ts = Unit
HasClass alw_type ts = Unit
HasClass leaf_type ts = Unit
HasClass root_type ts = false ≡ true

unfoldable mutual
  pub IsShaped : ThreadTree → Type 0
  IsShaped (tree n childs) = HasClass n.type childs × AllShaped childs

  pub AllShaped : ThreadTrees → Type 0
  AllShaped nil = Unit
  AllShaped (cons t ts) = IsShaped t × AllShaped ts

-- The run ends normally, with a value and a state that `P` holds of.
pub data Gives {A : Type 0} (P : A → Registry → Type 0) (m : Run (A × Registry)) : Type 0 where
  gives : (a : A) (r : Registry) → m ≡ ok (a, r) → P a r → Gives P m

pub Gives-bind :
    {A B : Type 0} {P : A → Registry → Type 0} {Q : B → Registry → Type 0} {m : Run (A × Registry)}
    (k : A × Registry → Run (B × Registry))
    → Gives P m
    → ((a : A) (r : Registry) → P a r → Gives Q (k (a, r)))
    → Gives Q (Base.◌>>=◌ m k)
Gives-bind {Q} {m} k (gives a r e p) g = gives_after (g a r p)
  where
    gives_after : Gives Q (k (a, r)) → Gives Q (Base.◌>>=◌ m k)
    gives_after (gives b r' e' q) = gives b r' (bind-ok k e ∙ e') q

pub Gives-weaken :
    {A : Type 0} {P Q : A → Registry → Type 0} {m : Run (A × Registry)}
    → Gives P m
    → ((a : A) (r : Registry) → P a r → Q a r)
    → Gives Q m
Gives-weaken (gives a r e p) f = gives a r e (f a r p)

one_self : (j : ℕ) → one j j ≡ 1
one_self j = rw (eq→== j j refl) refl

present-le : (b : Bool) → present b ≤ 1
present-le true = omega arith
present-le false = omega arith

present-some : (b : Bool) (n : ℕ) → n + 1 ≡ present b → b ≡ true
present-some true n e = refl
present-some false n e = absurd (omega arith)

taken_out :
    (b c : Bool) (n : ℕ)
    → (if b then 1 else 0) + n ≡ present c
    → n ≡ present (if b then false else c)
taken_out true c n e = omega (arith, present-le c)
taken_out false c n e = omega arith

module _ (kill : ℕ → ℕ) where
  -- Erasing a thread that the map has takes out one count.
  pub erase-Holds :
      (j : ℕ) (rest : ℕ → ℕ) (r : Registry)
      → Holds (λ k. one k j + rest k) r
      → Gives (λ _ r'. Holds rest r' × (r'.calls ≡ r.calls)) (erase j r)
  unfolding erase
  erase-Holds j rest r h =
      gives tt (record r { registered = unregister j r.registered }) (rw here refl)
        ((λ k. taken_out (k == j) (r.registered k) (rest k) (h k)), refl)
    where
      here : r.registered j ≡ true
      here = present-some (r.registered j) (rest j) (omega (arith, one_self j, h j))

  mutual
    unfolding destroy_tree occurs call

    -- Deleting a tree that the map has takes its threads out, and no other.
    pub destroy_tree-Holds :
        (is_root : Bool) (t : ThreadTree) (rest : ℕ → ℕ) (r : Registry)
        → Holds (λ k. occurs k t + rest k) r
        → Gives (λ _ r'. Holds rest r') (destroy_tree kill is_root t r)
    destroy_tree-Holds is_root (tree n childs) rest r h =
        Gives-bind _
          (destroy_trees-Holds childs (λ k. one k n.thread + rest k) r (λ k. omega (arith, h k)))
          (λ a r' h'.
            Gives-bind _ (erase-Holds n.thread rest r' h') (λ b r'' h''. gives tt _ refl h''.0))

    destroy_trees-Holds :
        (ts : ThreadTrees) (rest : ℕ → ℕ) (r : Registry)
        → Holds (λ k. occurs_all k ts + rest k) r
        → Gives (λ _ r'. Holds rest r') (destroy_trees kill ts r)
    destroy_trees-Holds nil rest r h = gives tt r refl (λ k. omega (arith, h k))
    destroy_trees-Holds (cons t ts) rest r h =
        Gives-bind _
          (destroy_tree-Holds false t (λ k. occurs_all k ts + rest k) r (λ k. omega (arith, h k)))
          (λ a r' h'. destroy_trees-Holds ts rest r' h')
