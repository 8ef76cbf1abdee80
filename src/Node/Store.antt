-- ===== src/Node/Store.antt =====
-- The structs of node.h, and the store that holds them.
use lib_msvl.Base.{
  ℕ, ◌≡◌, Bool, Option, none, some, List, ◌==◌, if◌then◌else◌, Run, ok, fault, ap, ◌∙◌, refl, ◌≢◌,
  eq→==, ne→==,
}
use lib_msvl.Base

-- NODELENGTH
pub data NodeLength : Type 0 where
  more empty none_len : NodeLength

-- NODETYPE
pub data NodeType : Type 0 where
  and_type pal_type prj_type keep_type alw_type leaf_type root_type : NodeType

-- The array of the child pointers, with the capacity that is not in use.
pub record Childs : Type 0 where
  pub slots : List ℕ
  pub spare : ℕ

-- struct node and its six copies; `ext_Q` and `has_ext_Q` are those of struct prj_node. `allocated`
-- is the type whose struct malloc was asked for: only that of PRJ has room for them.
pub record Node : Type 0 where
  pub thread : ℕ
  pub father : ℕ
  pub childs : Option Childs
  pub type : NodeType
  pub new_type : NodeType
  pub len : NodeLength
  pub is_init : Bool
  pub has_empty : Bool
  pub mutex : ℕ
  pub cond : ℕ
  pub ext_Q : Bool
  pub has_ext_Q : Bool
  pub allocated : NodeType

-- the value of the enumeration
abbrev pub type_code : NodeType → ℕ
type_code and_type = 0
type_code pal_type = 1
type_code prj_type = 2
type_code keep_type = 3
type_code alw_type = 4
type_code leaf_type = 5
type_code root_type = 6

abbrev pub same_type : NodeType → NodeType → Bool
same_type a b = type_code a == type_code b

abbrev pub len_code : NodeLength → ℕ
len_code more = 0
len_code empty = 1
len_code none_len = 2

-- No node stands at NULL or at a freed address.
abbrev pub Store : Type 0
Store = ℕ → Option Node

abbrev pub update : ℕ → Option Node → Store → Store
update p n s q = if q == p then n else s q

abbrev pub M : Type 0 → Type 0
M A = Store → Run (A × Store)

abbrev pub pure : {A : Type 0} → A → M A
pure a s = ok (a, s)

infixl 5 ◌>>=◌ ◌>>◌
abbrev pub ◌>>=◌ : {A B : Type 0} → M A → (A → M B) → M B
◌>>=◌ m f s = Base.◌>>=◌ (m s) (λ r. f r.0 r.1)

abbrev pub ◌>>◌ : {B : Type 0} → M (Unit {0}) → M B → M B
m >> k = m >>= λ _. k

-- An access through a pointer that no node stands at is undefined behaviour.
unfoldable pub load : ℕ → M Node
load p s = elim (s p) [ none ↦ fault | some n ↦ ok (n, s) ]

unfoldable pub store : ℕ → Node → M (Unit {0})
store p n s = elim (s p) [ none ↦ fault | some _ ↦ ok (tt, update p (some n) s) ]

-- `p->field = …`
unfoldable pub modify : (Node → Node) → ℕ → M (Unit {0})
unfolding load store
modify f p = do n ← load p; store p (f n)

-- what follows a piece that returns
pub bind-ok : {A B : Type 0} {r : Run A} {a : A} (k : A → Run B) → r ≡ ok a → Base.◌>>=◌ r k ≡ k a
bind-ok k e = ap (λ q. Base.◌>>=◌ q k) e

pub bind-fault : {A B : Type 0} {r : Run A} (k : A → Run B) → r ≡ fault → Base.◌>>=◌ r k ≡ fault
bind-fault k e = ap (λ q. Base.◌>>=◌ q k) e

pub load-some : (s : Store) (p : ℕ) {n : Node} → s p ≡ some n → load p s ≡ ok (n, s)
unfolding load
load-some s p e =
    ap (λ o. elim o as (λ _. Run (Node × Store)) [ none ↦ fault | some m ↦ ok (m, s) ]) e

pub load-none : (s : Store) (p : ℕ) → s p ≡ none → load p s ≡ fault
unfolding load
load-none s p e =
    ap (λ o. elim o as (λ _. Run (Node × Store)) [ none ↦ fault | some m ↦ ok (m, s) ]) e

pub store-some :
    (s : Store) (p : ℕ) {n : Node} (m : Node)
    → s p ≡ some n
    → store p m s ≡ ok (tt, update p (some m) s)
unfolding store
store-some s p m e =
    ap
      (λ o. elim o as (λ _. Run (Unit {0} × Store)) [
        | none ↦ fault
        | some _ ↦ ok (tt, update p (some m) s)
      ])
      e

pub modify-some :
    (s : Store) (p : ℕ) {n : Node} (f : Node → Node)
    → s p ≡ some n
    → modify f p s ≡ ok (tt, update p (some (f n)) s)
unfolding modify
modify-some s p {n} f e = bind-ok _ (load-some s p e) ∙ store-some s p (f n) e

pub update-same : (p : ℕ) (n : Option Node) (s : Store) → update p n s p ≡ n
update-same p n s = rw (eq→== p p refl) refl

pub update-other : (p q : ℕ) (n : Option Node) (s : Store) → q ≢ p → update p n s q ≡ s q
update-other p q n s h = rw (ne→== q p h) refl
