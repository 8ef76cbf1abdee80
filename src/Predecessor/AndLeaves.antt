-- ===== src/Predecessor/AndLeaves.antt =====
-- AndNode::isCorrectAndExit of function.cpp for a statement whose children are all leaves.
use lib_msvl.Base.{
  sym, subst, ◌++◌, append_assoc, append-nil, ℕ, ◌+◌, ◌≡◌, refl, ap, ◌∙◌, Bool, true, false, not,
  ◌&&◌, ◌||◌, Bool-cases, inl, inr, List, [], ◌∷◌, ◌==◌, if◌then◌else◌, arith,
}
use lib_msvl.Node.Store.{more, empty, none_len, leaf_type, and_type, len_code}
use lib_msvl.Predecessor.Tree.{
  Call, kill_thread, join_thread, destroy_mutex, destroy_cond, has_exited, release, call,
  destroy_tree, ThreadNode, ThreadTree, tree, ThreadTrees, size, Registry, Act,
}
use lib_msvl.Predecessor.Check.{
  Scan, leaf_node_check, check_tree, dispatch_check, is_empty_leaf, count_and, keep_unless,
  delete_if, and_node_loop, and_node_end,
}
use lib_msvl.Predecessor.Count.{
  occurs, occurs_all, one, Holds, Gives, gives, Gives-bind, erase-Holds,
}
use lib_msvl.Predecessor.Registered.{round}
use lib_msvl.Predecessor.Leaves.{
  any, all, count, without, count-all, is_empty, is_none, is_decided, as_leaf, leaves, size-leaves,
  len-cases, decided-count, empty_leaf-ends,
}

abbrev pub and_of : ThreadNode → List ThreadNode → ThreadTree
and_of n ns = tree (record n { type = and_type }) (leaves ns)

abbrev leaf_node : ThreadNode → ThreadNode
leaf_node n = record n { type = leaf_type }

-- whether a child of the statement has ended with length EMPTY, now or before
abbrev pub any_ended : ThreadNode → List ThreadNode → Bool
any_ended n ns = n.has_empty || any is_empty ns

-- What the check finds: an empty leaf is deleted, the statement is over if a child has ended and
-- none of the others goes on, and has length NONE if none has ended and all have length NONE.
abbrev pub and_checked : ThreadNode → List ThreadNode → Bool × ThreadTree
and_checked n ns = (
  any_ended n ns && all is_decided ns,
  tree
      (record n {
        type = and_type;
        has_empty = any_ended n ns;
        len =
            if not (any_ended n ns)
            then (if all is_none ns then none_len else more)
            else if all is_decided ns
            then empty
            else n.len;
      })
      (leaves (without is_empty ns)),
)

abbrev scanned : List ThreadNode → Scan
scanned ns = record {
  empty_num = count is_empty ns;
  none_num = count is_none ns;
  seen_empty = any is_empty ns;
  kept = leaves (without is_empty ns);
}

one_round :
    (n : ThreadNode) (ns : List ThreadNode)
    → keep_unless (is_empty n) (as_leaf n) (count_and (leaf_node n) (scanned ns)) ≡ scanned (n ∷ ns)
one_round n ns =
    len-cases
      (λ l.
        keep_unless (len_code l == 1) (as_leaf n) (
          if len_code l == 1 && true
          then record (scanned ns) { empty_num = count is_empty ns + 1; seen_empty = true }
          else if len_code l == 2
          then record (scanned ns) { none_num = count is_none ns + 1 }
          else scanned ns)
        ≡ record {
          empty_num = if len_code l == 1 then count is_empty ns + 1 else count is_empty ns;
          none_num = if len_code l == 2 then count is_none ns + 1 else count is_none ns;
          seen_empty = len_code l == 1 || any is_empty ns;
          kept = leaves (if len_code l == 1 then without is_empty ns else n ∷ without is_empty ns);
        })
      refl refl refl n.len

round_value :
    (n : ThreadNode) (ns : List ThreadNode) (g : Bool) (s : Scan)
    → g ≡ is_empty n
    → s ≡ scanned ns
    → keep_unless g (as_leaf n) (count_and (leaf_node n) s) ≡ scanned (n ∷ ns)
round_value n ns g s same e =
    ap (λ s'. keep_unless g (as_leaf n) (count_and (leaf_node n) s')) e
    ∙ ap (λ g'. keep_unless g' (as_leaf n) (count_and (leaf_node n) (scanned ns))) same
    ∙ one_round n ns

and-false : (b : Bool) → (b && false) ≡ false
and-false true = refl
and-false false = refl

end_lem :
    (m : ThreadNode) (k : ThreadTrees) (a b c : Bool)
    → ◌≡◌ {A = Bool × ThreadTree}
        (if not a
          then (false, tree (record m { has_empty = a; len = if c then none_len else more }) k)
          else if b
          then (true, tree (record m { has_empty = a; len = empty }) k)
          else (false, tree (record m { has_empty = a }) k))
        (
          a && b,
          tree
              (record m {
                has_empty = a;
                len = if not a then (if c then none_len else more) else if b then empty else m.len;
              })
              k,
        )
end_lem m k true true c = refl
end_lem m k true false c = refl
end_lem m k false b c = refl

module _ (kill : ℕ → ℕ) where
  gone-is_empty :
      (n : ThreadNode)
      → (leaf_node_check kill (leaf_node n) && is_empty_leaf (leaf_node n)) ≡ is_empty n
  gone-is_empty n = elim (Bool-cases (is_empty n)) [
    | inl e ↦ rw (e, empty_leaf-ends kill (leaf_node n) e) refl
    | inr e ↦ rw e (and-false (leaf_node_check kill (leaf_node n)))
  ]

  -- What the deletion of a leaf comes to: its thread gets a signal if it still runs, and is joined,
  -- and its mutex and condition are destroyed where there are such.
  abbrev pub let_go : ThreadNode → List Call
  let_go n =
      (if has_exited kill n then [] else kill_thread n.thread ∷ [])
      ++ (join_thread n.thread ∷ [])
      ++ (if n.mutex == 0 then [] else destroy_mutex n.mutex ∷ [])
      ++ (if n.cond == 0 then [] else destroy_cond n.cond ∷ [])

  -- the calls for the leaves of length EMPTY, leaf by leaf
  abbrev pub let_go_all : List ThreadNode → List Call
  let_go_all [] = []
  let_go_all (n ∷ ns) = (if is_empty n then let_go n else []) ++ let_go_all ns

  release-let_go : (n : ThreadNode) → release kill false (leaf_node n) ≡ let_go n
  unfolding release has_exited
  release-let_go n = by_flag (has_exited kill n)
    where
      by_flag :
          (b : Bool)
          → ((if not b && true then kill_thread n.thread ∷ [] else [])
              ++ (join_thread n.thread ∷ [])
              ++ (if n.mutex == 0 then [] else destroy_mutex n.mutex ∷ [])
              ++ (if n.cond == 0 then [] else destroy_cond n.cond ∷ []))
            ≡ ((if b then [] else kill_thread n.thread ∷ [])
                ++ (join_thread n.thread ∷ [])
                ++ (if n.mutex == 0 then [] else destroy_mutex n.mutex ∷ [])
                ++ (if n.cond == 0 then [] else destroy_cond n.cond ∷ []))
      by_flag true = refl
      by_flag false = refl

  destroy_tree-let_go :
      (n : ThreadNode) (rest : ℕ → ℕ) (r : Registry)
      → Holds (λ k. occurs k (as_leaf n) + rest k) r
      → Gives
          (λ _ r'. Holds rest r' × (r'.calls ≡ r.calls ++ let_go n))
          (destroy_tree kill false (as_leaf n) r)
  unfolding destroy_tree call occurs
  destroy_tree-let_go n rest r h =
      Gives-bind _ (erase-Holds kill n.thread rest r (λ k. omega (arith, h k))) (λ a r' p.
        gives tt _ refl (
          p.0,
          ap (λ cs. cs ++ release kill false (leaf_node n)) p.1
              ∙ ap (λ cs. r.calls ++ cs) (release-let_go n),
        ))

  -- What the loop owes for a first child that is deleted or not, and the others.
  abbrev RoundEnds :
      Bool → ThreadNode → List ThreadNode → (ℕ → ℕ) → List Call → Scan → Registry → Type 0
  RoundEnds gone n ns rest before s r' =
      (s ≡ scanned (n ∷ ns))
      × Holds
          (λ k.
            occurs_all k (leaves (if gone then without is_empty ns else n ∷ without is_empty ns))
            + rest k)
          r'
      × (r'.calls ≡ before ++ ((if gone then let_go n else []) ++ let_go_all ns))

  abbrev LoopEnds : List ThreadNode → (ℕ → ℕ) → List Call → Scan → Registry → Type 0
  LoopEnds ns rest before s r' =
      (s ≡ scanned ns)
      × Holds (λ k. occurs_all k (leaves (without is_empty ns)) + rest k) r'
      × (r'.calls ≡ before ++ let_go_all ns)

  round-scanned :
      (g : Bool) (n : ThreadNode) (ns : List ThreadNode) (loop : Act Scan) (rest : ℕ → ℕ)
      (r : Registry)
      → g ≡ is_empty n
      → ((rest' : ℕ → ℕ) (r' : Registry)
          → Holds (λ k. occurs_all k (leaves ns) + rest' k) r'
          → Gives (LoopEnds ns rest' r'.calls) (loop r'))
      → Holds (λ k. occurs k (as_leaf n) + occurs_all k (leaves ns) + rest k) r
      → Gives
          (RoundEnds g n ns rest r.calls)
          (round kill g (as_leaf n) loop (count_and (leaf_node n)) r)
  unfolding delete_if occurs
  round-scanned true n ns loop rest r same ih h =
      Gives-bind _
        (destroy_tree-let_go n (λ k. occurs_all k (leaves ns) + rest k) r (λ k. omega (arith, h k)))
        (λ a r' p. Gives-bind _ (ih rest r' p.0) (λ s r'' q. gives _ r'' refl (
          round_value n ns true s same q.0,
          q.1,
          q.2
              ∙ ap (λ cs. cs ++ let_go_all ns) p.1
              ∙ append_assoc r.calls (let_go n) (let_go_all ns),
        )))
  round-scanned false n ns loop rest r same ih h =
      Gives-bind _ (ih (λ k. occurs k (as_leaf n) + rest k) r (λ k. omega (arith, h k))) (λ s r'' q.
        gives _ r'' refl (round_value n ns false s same q.0, (λ k. omega (arith, q.1 k)), q.2))

  and_node_loop-scanned :
      (ns : List ThreadNode) (rest : ℕ → ℕ) (r : Registry)
      → Holds (λ k. occurs_all k (leaves ns) + rest k) r
      → Gives (LoopEnds ns rest r.calls) (and_node_loop kill (leaves ns) r)
  unfolding and_node_loop check_tree dispatch_check occurs
  and_node_loop-scanned [] rest r h = gives _ r refl (refl, h, sym (append-nil r.calls))
  and_node_loop-scanned (n ∷ ns) rest r h =
      subst (λ b. Gives (RoundEnds b n ns rest r.calls) (and_node_loop kill (leaves (n ∷ ns)) r))
        (gone-is_empty n)
        (round-scanned (leaf_node_check kill (leaf_node n) && is_empty_leaf (leaf_node n)) n ns
          (and_node_loop kill (leaves ns)) rest r (gone-is_empty n)
          (λ rest' r' h'. and_node_loop-scanned ns rest' r' h') h)

  and_node_end-checked :
      (n : ThreadNode) (ns : List ThreadNode)
      → and_node_end (record n { type = and_type }) (size (leaves ns)) (scanned ns)
        ≡ and_checked n ns
  unfolding and_node_end
  and_node_end-checked n ns =
      rw (size-leaves ns, decided-count ns, count-all is_decided ns, count-all is_none ns)
        (end_lem (record n { type = and_type }) (leaves (without is_empty ns)) (any_ended n ns)
          (all is_decided ns) (all is_none ns))

  -- AndNode::isCorrectAndExit of a statement whose children are all leaves, while threadIDToNode
  -- has exactly the threads of the statement, each once, and those of other nodes: it returns what
  -- `and_checked` says. Every leaf of length EMPTY is deleted, and of the threads just theirs leave
  -- the map; the calls are those of the deletions, leaf by leaf. The other leaves stay in order. It
  -- returns true exactly if a child has ended with length EMPTY, now or before, and no child has
  -- length MORE; and it sets the length to EMPTY then, and where no child has ended, to NONE if
  -- that of every child is NONE and to MORE if not.
  pub and_node-Leaves :
      (n : ThreadNode) (ns : List ThreadNode) (rest : ℕ → ℕ) (r : Registry)
      → Holds (λ k. occurs k (and_of n ns) + rest k) r
      → Gives
          (λ p r'.
            (p ≡ and_checked n ns)
            × Holds (λ k. occurs k (and_of n (without is_empty ns)) + rest k) r'
            × (r'.calls ≡ r.calls ++ let_go_all ns))
          (check_tree kill (and_of n ns) r)
  unfolding check_tree dispatch_check occurs
  and_node-Leaves n ns rest r h =
      Gives-bind _
        (and_node_loop-scanned ns (λ k. one k n.thread + rest k) r (λ k. omega (arith, h k)))
        (λ s r' q. gives _ r' refl (
          ap (λ s'. and_node_end (record n { type = and_type }) (size (leaves ns)) s') q.0
              ∙ and_node_end-checked n ns,
          (λ k. omega (arith, q.1 k)),
          q.2,
        ))
