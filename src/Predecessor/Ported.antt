-- ===== src/Predecessor/Ported.antt =====
-- and_node_is_correct_and_exit of node.c against AndNode::isCorrectAndExit of function.cpp, which
-- it was ported from, on the same nodes.
use lib_msvl.Base.{
  ℕ, suc, ◌+◌, ◌≡◌, ◌≢◌, refl, sym, ap, ◌∙◌, Bool, true, false, ◌||◌, some, List, [], ◌∷◌, length,
  map, ◌==◌, subst, if◌then◌else◌, ok,
}
use lib_msvl.Node.Store.{more, none_len, Node, Childs, Store, update}
use lib_msvl.Node.Check.{and_is_correct_and_exit, is_correct_and_exit}
use lib_msvl.Node.Verdict.Leaves.{Leaves}
use lib_msvl.Node.Verdict.Leaves
use lib_msvl.Node.Verdict.And.{and-Leaves}
use lib_msvl.Predecessor.Tree.{ThreadNode, Registry}
use lib_msvl.Predecessor.Check.{check_tree}
use lib_msvl.Predecessor.Count.{occurs, Holds, Gives, Gives-weaken}
use lib_msvl.Predecessor.Leaves.{any, all, count, without, count-all, is_empty, is_none, leaves}
use lib_msvl.Predecessor.AndLeaves.{and_of, and_checked, and_node-Leaves}

-- the object of class Node with what the struct node holds
abbrev pub ported : Node → ThreadNode
ported n = record {
  thread = n.thread;
  type = n.type;
  new_type = n.new_type;
  len = n.len;
  has_empty = n.has_empty;
  mutex = n.mutex;
  cond = n.cond;
  is_init = n.is_init;
}

any-ported : (ms : List Node) → any is_empty (map ported ms) ≡ Leaves.any Leaves.is_empty ms
any-ported [] = refl
any-ported (m ∷ ms) = ap (λ b. is_empty (ported m) || b) (any-ported ms)

none-ported :
    (ms : List Node) → (Leaves.count Leaves.is_none ms == length ms) ≡ all is_none (map ported ms)
none-ported ms = rw (counted ms, measured ms) (count-all is_none (map ported ms))
  where
    counted : (ms : List Node) → Leaves.count Leaves.is_none ms ≡ count is_none (map ported ms)
    counted [] = refl
    counted (m ∷ ms) = ap (λ k. if is_none (ported m) then k + 1 else k) (counted ms)

    measured : (ms : List Node) → length ms ≡ length (map ported ms)
    measured [] = refl
    measured (m ∷ ms) = ap suc (measured ms)

both-false : (a b : Bool) → (a || b) ≡ false → (a ≡ false) × (b ≡ false)
both-false false b h = (refl, h)
both-false true b h = absurd cc

without-none : (ns : List ThreadNode) → any is_empty ns ≡ false → without is_empty ns ≡ ns
without-none [] h = refl
without-none (n ∷ ns) h =
    let (here, behind) = both-false (is_empty n) (any is_empty ns) h in
    rw here (ap (λ xs. n ∷ xs) (without-none ns behind))

checked-fresh :
    (n : ThreadNode) (ns : List ThreadNode)
    → n.has_empty ≡ false
    → any is_empty ns ≡ false
    → and_checked n ns
      ≡ (false, and_of (record n { len = if all is_none ns then none_len else more }) ns)
checked-fresh n ns fresh h = rw (fresh, h, without-none ns h) refl

module _ (kill : ℕ → ℕ) where
  -- For the same statement with at least one child, all of them leaves and none of length EMPTY,
  -- and no empty child before, and while threadIDToNode has exactly the threads of the statement,
  -- each once, and those of other nodes: and_node_is_correct_and_exit of node.c and
  -- AndNode::isCorrectAndExit of function.cpp return the same and leave the same statement.
  pub and_node-Ported :
      (depth this : ℕ) (s : Store) (n : Node) (c : Childs) (ms : List Node) (rest : ℕ → ℕ)
      (r : Registry)
      → s this ≡ some n
      → n.childs ≡ some c
      → n.has_empty ≡ false
      → Leaves s c.slots ms
      → ms ≢ []
      → Leaves.any Leaves.is_empty ms ≡ false
      → Holds (λ k. occurs k (and_of (ported n) (map ported ms)) + rest k) r
      → (b : Bool) × (m : Node) × (and_is_correct_and_exit kill
            (is_correct_and_exit kill (suc depth))
            this
            s
          ≡ ok (b, update this (some m) s))
        × Gives
            (λ p _. p ≡ (b, and_of (ported m) (map ported ms)))
            (check_tree kill (and_of (ported n) (map ported ms)) r)
  and_node-Ported depth this s n c ms rest r at_this has fresh leaves nonempty none_empty h = (
    false,
    record n { len = if Leaves.count Leaves.is_none ms == length ms then none_len else more },
    and-Leaves kill depth this s n c ms at_this has fresh leaves nonempty ∙ rw none_empty refl,
    subst (λ q. Gives (λ p _. p ≡ q) (check_tree kill (and_of (ported n) (map ported ms)) r))
        (checked-fresh (ported n) (map ported ms) fresh (any-ported ms ∙ none_empty)
          ∙ ap
              (λ t. (
                false,
                and_of (ported (record n { len = if t then none_len else more })) (map ported ms),
              ))
              (sym (none-ported ms)))
        (Gives-weaken (and_node-Leaves kill (ported n) (map ported ms) rest r h) (λ p r' q. q.0)),
  )
