-- ===== src/Predecessor/Registered.antt =====
-- threadIDToNode of function.cpp against the tree of threads, through isCorrectAndExit.
use lib_msvl.Base.{
  ℕ, ◌+◌, ◌≡◌, refl, sym, subst, Bool, true, false, ◌&&◌, ◌==◌, if◌then◌else◌, arith,
}
use lib_msvl.Node.Store.{
  NodeType, and_type, pal_type, prj_type, keep_type, alw_type, leaf_type, root_type, len_code,
}
use lib_msvl.Predecessor.Tree.{
  ThreadNode, ThreadTree, tree, ThreadTrees, nil, cons, node_of, size, Registry, Act, return,
  has_exited, ◌>>=◌, ◌>>◌,
}
use lib_msvl.Predecessor.Check.{
  Scan, is_leaf, is_empty_leaf, count_and, count_pal, keep_unless, and_node_end, pal_node_end,
  prj_node_end, prj_node_check, prj_node_loop, dispatch_check, leaf_node_check, delete_if,
  check_tree, and_node_loop, pal_node_loop,
}
use lib_msvl.Predecessor.Count.{
  one, occurs, occurs_all, present, Holds, HasClass, IsShaped, AllShaped, Gives, gives, Gives-bind,
  destroy_tree-Holds,
}
use lib_msvl.Predecessor.Ends.{IsAt, and_node_end-IsAt, pal_node_end-IsAt, prj_node_end-IsAt}

module _ (kill : ℕ → ℕ) where
  -- one round of a loop, behind the check of its child
  abbrev pub round : Bool → ThreadTree → Act Scan → (Scan → Scan) → Act Scan
  round gone u loop count = do
    delete_if kill gone u
    s ← loop
    return (keep_unless gone u (count s))

  -- What a loop owes: the map has the threads of the children that stay, and these are shaped.
  abbrev Scanned : (ℕ → ℕ) → Scan → Registry → Type 0
  Scanned rest s r = Holds (λ k. occurs_all k s.kept + rest k) r × AllShaped s.kept

  round-Scanned :
      (gone : Bool) (u : ThreadTree) (loop : Act Scan) (count : Scan → Scan) (behind rest : ℕ → ℕ)
      (r : Registry)
      → ((s : Scan) → (count s).kept ≡ s.kept)
      → ((rest' : ℕ → ℕ) (r' : Registry)
          → Holds (λ k. behind k + rest' k) r'
          → Gives (Scanned rest') (loop r'))
      → IsShaped u
      → Holds (λ k. occurs k u + (behind k + rest k)) r
      → Gives (Scanned rest) (round gone u loop count r)
  unfolding delete_if IsShaped occurs
  round-Scanned true u loop count behind rest r same each shaped h =
      Gives-bind _ (destroy_tree-Holds kill false u (λ k. behind k + rest k) r h) (λ a r' h'.
        Gives-bind _ (each rest r' h') (λ s r'' p. gives _ r'' refl (
          subst (λ ts. Holds (λ k. occurs_all k ts + rest k) r'' × AllShaped ts) (sym (same s)) p)))
  round-Scanned false u loop count behind rest r same each shaped h =
      Gives-bind _ (each (λ k. occurs k u + rest k) r (λ k. omega (arith, h k))) (λ s r' p.
        let q =
          subst (λ ts. Holds (λ k. occurs_all k ts + (occurs k u + rest k)) r' × AllShaped ts)
            (sym (same s)) p in
        gives _ r' refl ((λ k. omega (arith, q.0 k)), (shaped, q.1)))

  -- What a check owes: the map has the threads of the tree that it leaves, and this is shaped.
  abbrev pub Checked : (ℕ → ℕ) → Bool × ThreadTree → Registry → Type 0
  Checked rest p r = Holds (λ k. occurs k p.1 + rest k) r × IsShaped p.1

  IsAt-Checked :
      (n : ThreadNode) (ts : ThreadTrees) (p : Bool × ThreadTree) (rest : ℕ → ℕ) (r : Registry)
      → IsAt n ts p.1
      → HasClass n.type ts
      → AllShaped ts
      → Holds (λ k. occurs_all k ts + (one k n.thread + rest k)) r
      → Checked rest p r
  unfolding occurs IsShaped
  IsAt-Checked n ts p rest r (m, e, same_thread, same_type) class shaped h =
      subst (λ t. Holds (λ k. occurs k t + rest k) r × IsShaped t) e
        (
          (λ k.
              subst (λ j. one k j + occurs_all k ts + rest k ≡ present (r.registered k))
                (sym same_thread) (omega (arith, h k))),
          (subst (λ c. HasClass c ts) (sym same_type) class, shaped),
        )

  -- the count that PrjNode compares with its number of children
  abbrev exits : ThreadTree → ThreadTrees → ℕ
  exits q ps = prj_node_loop ps (if has_exited kill (node_of q) then 1 else 0)

  prj_node-Checked :
      (n : ThreadNode) (childs : ThreadTrees) (rest : ℕ → ℕ) (r : Registry)
      → HasClass prj_type childs
      → n.type ≡ prj_type
      → AllShaped childs
      → Holds (λ k. occurs_all k childs + (one k n.thread + rest k)) r
      → Gives (Checked rest) (prj_node_check kill n childs r)
  unfolding prj_node_check
  prj_node-Checked n nil rest r class e shaped h = absurd cc
  prj_node-Checked n (cons q ps) rest r class e shaped h = gives _ r refl (
      IsAt-Checked n (cons q ps) (prj_node_end n (cons q ps) (exits q ps)) rest r
        (prj_node_end-IsAt n (cons q ps) (exits q ps))
        (subst (λ c. HasClass c (cons q ps)) (sym e) tt) shaped h)

  dispatch-Checked :
      (and_loop pal_loop : Act Scan) (type : NodeType) (n : ThreadNode) (childs : ThreadTrees)
      (rest : ℕ → ℕ) (r : Registry)
      → n.type ≡ type
      → HasClass type childs
      → AllShaped childs
      → Holds (λ k. occurs_all k childs + (one k n.thread + rest k)) r
      → Gives (Scanned (λ k. one k n.thread + rest k)) (and_loop r)
      → Gives (Scanned (λ k. one k n.thread + rest k)) (pal_loop r)
      → Gives (Checked rest) (dispatch_check kill and_loop pal_loop type n childs r)
  unfolding dispatch_check
  dispatch-Checked and_loop pal_loop and_type n childs rest r e class shaped h by_and by_pal =
      Gives-bind _ by_and (λ s r' p. gives _ r' refl (
        IsAt-Checked n s.kept (and_node_end n (size childs) s) rest r'
          (and_node_end-IsAt n (size childs) s) (subst (λ c. HasClass c s.kept) (sym e) tt) p.1
          p.0))
  dispatch-Checked and_loop pal_loop pal_type n childs rest r e class shaped h by_and by_pal =
      Gives-bind _ by_pal (λ s r' p. gives _ r' refl (
        IsAt-Checked n s.kept (pal_node_end n (size childs) s) rest r'
          (pal_node_end-IsAt n (size childs) s) (subst (λ c. HasClass c s.kept) (sym e) tt) p.1
          p.0))
  dispatch-Checked and_loop pal_loop prj_type n childs rest r e class shaped h by_and by_pal =
      prj_node-Checked n childs rest r class e shaped h
  dispatch-Checked and_loop pal_loop keep_type n childs rest r e class shaped h by_and by_pal =
      gives _ r refl (
        IsAt-Checked n childs (has_exited kill n, tree n childs) rest r (n, refl, refl, refl)
          (subst (λ c. HasClass c childs) (sym e) tt) shaped h)
  dispatch-Checked and_loop pal_loop alw_type n childs rest r e class shaped h by_and by_pal =
      gives _ r refl (
        IsAt-Checked n childs (has_exited kill n, tree n childs) rest r (n, refl, refl, refl)
          (subst (λ c. HasClass c childs) (sym e) tt) shaped h)
  dispatch-Checked and_loop pal_loop leaf_type n childs rest r e class shaped h by_and by_pal =
      gives _ r refl (
        IsAt-Checked n childs (leaf_node_check kill n, tree n childs) rest r (n, refl, refl, refl)
          (subst (λ c. HasClass c childs) (sym e) tt) shaped h)
  dispatch-Checked and_loop pal_loop root_type n childs rest r e class shaped h by_and by_pal =
      absurd cc

  kept-if :
      (b : Bool) (x y : Scan) (ts : ThreadTrees)
      → x.kept ≡ ts
      → y.kept ≡ ts
      → (if b then x else y).kept ≡ ts
  kept-if true x y ts h h' = h
  kept-if false x y ts h h' = h'

  kept-count_and : (n : ThreadNode) (s : Scan) → (count_and n s).kept ≡ s.kept
  kept-count_and n s =
      kept-if (is_empty_leaf n) _ _ s.kept refl (kept-if (len_code n.len == 2) _ _ s.kept refl refl)

  kept-count_pal : (b : Bool) (n : ThreadNode) (s : Scan) → (count_pal b n s).kept ≡ s.kept
  kept-count_pal b n s = kept-if (b && len_code n.len == 1) _ _ s.kept refl refl

  mutual
    unfolding check_tree occurs IsShaped

    check_tree-Checked :
        (t : ThreadTree) (rest : ℕ → ℕ) (r : Registry)
        → IsShaped t
        → Holds (λ k. occurs k t + rest k) r
        → Gives (Checked rest) (check_tree kill t r)
    check_tree-Checked (tree n childs) rest r shaped h =
        dispatch-Checked _ _ n.type n childs rest r refl shaped.0 shaped.1 (λ k. omega (arith, h k))
          (and_node_loop-Scanned childs (λ k. one k n.thread + rest k) r shaped.1
            (λ k. omega (arith, h k)))
          (pal_node_loop-Scanned childs (λ k. one k n.thread + rest k) r shaped.1
            (λ k. omega (arith, h k)))

    and_node_loop-Scanned :
        (ts : ThreadTrees) (rest : ℕ → ℕ) (r : Registry)
        → AllShaped ts
        → Holds (λ k. occurs_all k ts + rest k) r
        → Gives (Scanned rest) (and_node_loop kill ts r)
    and_node_loop-Scanned nil rest r shaped h = gives _ r refl (h, tt)
    and_node_loop-Scanned (cons t ts) rest r shaped h =
        Gives-bind _
          (check_tree-Checked t (λ k. occurs_all k ts + rest k) r shaped.0
            (λ k. omega (arith, h k)))
          (λ p r' c.
            round-Scanned (p.0 && is_empty_leaf (node_of p.1)) p.1 (and_node_loop kill ts)
              (count_and (node_of p.1)) (λ k. occurs_all k ts) rest r'
              (kept-count_and (node_of p.1))
              (λ rest' r'' h'. and_node_loop-Scanned ts rest' r'' shaped.1 h') c.1 c.0)

    pal_node_loop-Scanned :
        (ts : ThreadTrees) (rest : ℕ → ℕ) (r : Registry)
        → AllShaped ts
        → Holds (λ k. occurs_all k ts + rest k) r
        → Gives (Scanned rest) (pal_node_loop kill ts r)
    pal_node_loop-Scanned nil rest r shaped h = gives _ r refl (h, tt)
    pal_node_loop-Scanned (cons t ts) rest r shaped h =
        Gives-bind _
          (check_tree-Checked t (λ k. occurs_all k ts + rest k) r shaped.0
            (λ k. omega (arith, h k)))
          (λ p r' c.
            round-Scanned (p.0 && is_leaf (node_of p.1)) p.1 (pal_node_loop kill ts)
              (count_pal (p.0 && is_leaf (node_of p.1)) (node_of p.1)) (λ k. occurs_all k ts) rest
              r' (kept-count_pal (p.0 && is_leaf (node_of p.1)) (node_of p.1))
              (λ rest' r'' h'. pal_node_loop-Scanned ts rest' r'' shaped.1 h') c.1 c.0)

  -- isCorrectAndExit of any tree in which no PrjNode is without a child, while threadIDToNode has
  -- exactly its threads, each once, and those of other nodes: it returns, no assertion fails, the
  -- map has exactly the threads of the tree that it leaves and those of the other nodes, and in
  -- that tree no PrjNode is without a child either.
  pub check_tree-Registered :
      (t : ThreadTree) (rest : ℕ → ℕ) (r : Registry)
      → IsShaped t
      → Holds (λ k. occurs k t + rest k) r
      → Gives (Checked rest) (check_tree kill t r)
  check_tree-Registered t rest r shaped h = check_tree-Checked t rest r shaped h
