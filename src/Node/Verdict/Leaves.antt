-- ===== src/Node/Verdict/Leaves.antt =====
-- A statement whose children are all leaves, and what node_is_correct_and_exit of node.c finds
-- about one leaf.
use lib_msvl.Base.{
  ℕ, suc, ◌+◌, ◌≡◌, ◌≢◌, refl, ap, ◌∙◌, Bool, true, false, not, ◌||◌, some, List, [], ◌∷◌, length,
  ne→==, ◌==◌, if◌then◌else◌, ok,
}
use lib_msvl.Node.Store.{leaf_type, Node, Store, len_code, bind-ok, load-some}
use lib_msvl.Node.Check.{
  thread_exited, is_exit, leaf_is_correct_and_exit, dispatch, is_correct_and_exit,
}

-- The slots point to the leaves `ms`, in order.
unfoldable pub Leaves : Store → List ℕ → List Node → Type 0
Leaves s [] [] = Unit
Leaves s [] (m ∷ ms) = true ≡ false
Leaves s (p ∷ ps) [] = true ≡ false
Leaves s (p ∷ ps) (m ∷ ms) = (p ≢ 0) × (s p ≡ some m) × (m.type ≡ leaf_type) × Leaves s ps ms

abbrev pub is_more : Node → Bool
is_more m = len_code m.len == 0

abbrev pub is_empty : Node → Bool
is_empty m = len_code m.len == 1

abbrev pub is_none : Node → Bool
is_none m = len_code m.len == 2

abbrev pub any : (Node → Bool) → List Node → Bool
any f [] = false
any f (m ∷ ms) = f m || any f ms

abbrev pub count : (Node → Bool) → List Node → ℕ
count f [] = 0
count f (m ∷ ms) = if f m then count f ms + 1 else count f ms

pub length-Leaves :
    (s : Store) (ps : List ℕ) (ms : List Node) → Leaves s ps ms → length ps ≡ length ms
unfolding Leaves
length-Leaves s [] [] h = refl
length-Leaves s [] (m ∷ ms) h = absurd cc
length-Leaves s (p ∷ ps) [] h = absurd cc
length-Leaves s (p ∷ ps) (m ∷ ms) h = ap suc (length-Leaves s ps ms h.3)

module _ (kill : ℕ → ℕ) where
  -- The thread of the leaf has ended or its length is decided.
  unfoldable pub finished : Node → Bool
  finished m = thread_exited kill m.thread || not (is_more m)

  leaf_lem :
      (s : Store) (p : ℕ) (m : Node)
      → s p ≡ some m
      → leaf_is_correct_and_exit kill p s ≡ ok (finished m, s)
  unfolding leaf_is_correct_and_exit is_exit finished
  leaf_lem s p m e = bind-ok _ (load-some s p e) ∙ bind-ok _ (bind-ok _ (load-some s p e))

  pub check_leaf :
      (depth : ℕ) (s : Store) (p : ℕ) (m : Node)
      → p ≢ 0
      → s p ≡ some m
      → m.type ≡ leaf_type
      → is_correct_and_exit kill (suc depth) p s ≡ ok (finished m, s)
  unfolding is_correct_and_exit dispatch
  check_leaf depth s p m h e t = rw (ne→== p 0 h) (
      bind-ok _ (load-some s p e)
      ∙ ap (λ k. dispatch kill (is_correct_and_exit kill depth) k p s) t
      ∙ leaf_lem s p m e)
