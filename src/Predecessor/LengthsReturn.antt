-- ===== src/Predecessor/LengthsReturn.antt =====
-- setNodeLength of function.cpp on a forest: it returns, and leaves the forest's links as they are.
use lib_msvl.Base.{
  ℕ, zero, suc, ◌+◌, ◌<◌, ◌≡◌, refl, sym, subst, ◌⊎◌, true, false, not, ◌||◌, inl, inr, List, [],
  ◌∷◌, length, ◌==◌, Run, ne→==, eq→==, Option, none, some, is_some, arith,
}
use lib_msvl.Node.Store.{
  NodeLength, empty, none_len, NodeType, and_type, pal_type, prj_type, keep_type, alw_type,
  leaf_type, root_type, same_type,
}
use lib_msvl.Predecessor.Objects.{Object, Heap, put}
use lib_msvl.Predecessor.Lengths.{
  AndRound, go_on, becomes, stops, after_round, set_and_len, set_pal_len, is_first, prj_after,
  set_prj_len, hand_on, after_length, set_length_at, set_node_length,
}
use lib_msvl.Predecessor.Links.{
  IsLinked, AllObjects, is_in, IsForest, Settles, settles, object_of-ok, object_at, put-IsLinked,
  Settles-bind, Settles-if, count_lengths-ok, prj_scan-ok,
}

module _ (l : ℕ → Option (ℕ × List ℕ)) where
  module _ (rank : ℕ → ℕ) (forest : IsForest rank l) where
    -- NULL, or an object whose rank the fuel exceeds
    abbrev IsReached : ℕ → ℕ → Type 0
    IsReached depth p =
        ((p ≡ 0) × (0 < depth))
        ⊎ ((f : ℕ) × (cs : List ℕ) × (l p ≡ some (f, cs)) × (rank p + 1 < depth))

    father-IsReached :
        (depth p f : ℕ) (cs : List ℕ)
        → l p ≡ some (f, cs)
        → rank p + 1 < suc depth
        → IsReached depth f
    father-IsReached depth p f cs known below = elim (forest p f cs known).1 [
      | inl e ↦ inl (e, omega arith)
      | inr up ↦ inr (up.0.0, up.0.1, up.1, omega (arith, up.2))
    ]

    after_round-Settles :
        (next : Heap → Run Heap) (p : ℕ) (o : Object) (h : Heap) (r : AndRound)
        → h.object p ≡ some o
        → IsLinked l h
        → ((h' : Heap) → IsLinked l h' → Settles l (next h'))
        → Settles l (after_round next p o h r)
    unfolding after_round
    after_round-Settles next p o h (go_on n) here linked each =
        each (put p n o h) (put-IsLinked l h p n o linked here)
    after_round-Settles next p o h (becomes n) here linked each =
        settles _ refl (put-IsLinked l h p n o linked here)
    after_round-Settles next p o h (stops n) here linked each =
        settles _ refl (put-IsLinked l h p n o linked here)

    set_and_len-Settles :
        (depth p : ℕ) (h : Heap)
        → IsLinked l h
        → IsReached depth p
        → Settles l (set_and_len depth p h)
    unfolding set_and_len
    set_and_len-Settles zero p h linked (inl (e, few)) = absurd (omega arith)
    set_and_len-Settles zero p h linked (inr (f, cs, known, few)) = absurd (omega arith)
    set_and_len-Settles (suc depth) p h linked (inl (e, few)) =
        rw (eq→== p 0 e) (settles h refl linked)
    set_and_len-Settles (suc depth) p h linked (inr (f, cs, known, few)) =
        let (o, here, its_father, its_childs) = object_at l h p f cs linked known in
        let (r, counted) =
          count_lengths-ok l h o.childs 0 0 linked
            (subst (λ ps. AllObjects l ps) (sym its_childs) (forest p f cs known).2) in
        rw (ne→== p 0 (forest p f cs known).0) (
          Settles-bind l _ _ o (object_of-ok h p o here) (
            Settles-if l (not (same_type o.node.type and_type)) _ _ (settles h refl linked) (
              Settles-bind l _ _ r counted (
                after_round-Settles (set_and_len depth o.father) p o h _ here linked (λ h' linked'.
                  set_and_len-Settles depth o.father h' linked' (
                    subst (λ q. IsReached depth q) (sym its_father)
                      (father-IsReached depth p f cs known few)))))))

    set_pal_len-Settles :
        (p f : ℕ) (cs : List ℕ) (h : Heap)
        → IsLinked l h
        → l p ≡ some (f, cs)
        → Settles l (set_pal_len p h)
    unfolding set_pal_len
    set_pal_len-Settles p f cs h linked known =
        let (o, here, its_father, its_childs) = object_at l h p f cs linked known in
        let (r, counted) =
          count_lengths-ok l h o.childs 0 0 linked
            (subst (λ ps. AllObjects l ps) (sym its_childs) (forest p f cs known).2) in
        Settles-bind l _ _ o (object_of-ok h p o here) (
          Settles-bind l _ _ r counted (
            Settles-if l (r.0 == length o.childs) _ _
              (settles _ refl (put-IsLinked l h p (record o.node { len = none_len }) o linked here))
              (Settles-if l (r.1 + r.0 == length o.childs) _ _
                (settles _ refl (
                  put-IsLinked l h p (record o.node { len = empty; new_type = leaf_type }) o linked
                    here))
                (settles h refl linked))))

    prj_after-Settles :
        (p : ℕ) (h : Heap) (o : Object) (pos : Option (List ℕ))
        → IsLinked l h
        → is_some pos ≡ true
        → Settles l (prj_after p h o pos)
    unfolding prj_after
    prj_after-Settles p h o none linked met = absurd cc
    prj_after-Settles p h o (some []) linked met = settles h refl linked
    prj_after-Settles p h o (some (q ∷ qs)) linked met =
        Settles-if l (not o.has_ext_Q) _ _ (settles _ refl linked) (settles h refl linked)

    set_prj_len-Settles :
        (p child f : ℕ) (cs : List ℕ) (h : Heap)
        → IsLinked l h
        → l p ≡ some (f, cs)
        → is_in child cs ≡ true
        → Settles l (set_prj_len p child h)
    unfolding set_prj_len
    set_prj_len-Settles p child f cs h linked known member =
        let (o, here, its_father, its_childs) = object_at l h p f cs linked known in
        let (r, scanned, met) =
          prj_scan-ok l h child o.childs 0 none linked
            (subst (λ ps. AllObjects l ps) (sym its_childs) (forest p f cs known).2)
            (subst (λ ps. (is_in child ps || false) ≡ true) (sym its_childs) (rw member refl)) in
        Settles-bind l _ _ o (object_of-ok h p o here) (
          Settles-bind l _ _ r scanned (
            Settles-if l (r.0 == length o.childs) _ _
              (settles _ refl (
                put-IsLinked l h p (record o.node { len = empty; new_type = leaf_type }) o linked
                  here))
              (Settles-if l (is_first child o.childs) _ _ (settles h refl linked)
                (prj_after-Settles p h o r.1 linked met))))

    hand_on-Settles :
        (depth : ℕ) (type : NodeType) (p child f : ℕ) (cs : List ℕ) (h : Heap)
        → IsLinked l h
        → l p ≡ some (f, cs)
        → rank p + 1 < depth
        → is_in child cs ≡ true
        → Settles l (hand_on depth type p child h)
    unfolding hand_on
    hand_on-Settles depth and_type p child f cs h linked known few member =
        set_and_len-Settles depth p h linked (inr (f, cs, known, few))
    hand_on-Settles depth pal_type p child f cs h linked known few member =
        set_pal_len-Settles p f cs h linked known
    hand_on-Settles depth prj_type p child f cs h linked known few member =
        set_prj_len-Settles p child f cs h linked known member
    hand_on-Settles depth keep_type p child f cs h linked known few member = settles h refl linked
    hand_on-Settles depth alw_type p child f cs h linked known few member = settles h refl linked
    hand_on-Settles depth leaf_type p child f cs h linked known few member = settles h refl linked
    hand_on-Settles depth root_type p child f cs h linked known few member = settles h refl linked

    after_length-Settles :
        (depth p f : ℕ) (cs : List ℕ) (o : Object) (h : Heap)
        → IsLinked l h
        → l p ≡ some (f, cs)
        → o.father ≡ f
        → rank p < depth
        → Settles l (after_length depth p o h)
    unfolding after_length
    after_length-Settles depth p f cs o h linked known its_father few =
        rw its_father (elim (forest p f cs known).1 [
          | inl e ↦ rw (eq→== f 0 e) (settles h refl linked)
          | inr (x, up, lower, member) ↦
              let (a, above, _, _) = object_at l h f x.0 x.1 linked up in
              rw (ne→== f 0 (forest f x.0 x.1 up).0) (
                Settles-bind l _ _ a (object_of-ok h f a above)
                  (hand_on-Settles depth a.node.type f p x.0 x.1 h linked up (omega arith) member))
        ])

    -- setNodeLength by a thread whose node stands in a forest of objects, in which fathers and
    -- children name each other, with more fuel than the node's rank: it returns, whatever the
    -- lengths and the classes of the nodes, and every object keeps its father and its children.
    pub set_node_length-Settles :
        (depth self p f : ℕ) (cs : List ℕ) (len : NodeLength) (h : Heap)
        → IsLinked l h
        → h.thread_id_to_node self ≡ some p
        → l p ≡ some (f, cs)
        → rank p < depth
        → Settles l (set_node_length depth self len h)
    unfolding set_node_length set_length_at
    set_node_length-Settles depth self p f cs len h linked found known few =
        let (o, here, its_father, its_childs) = object_at l h p f cs linked known in
        rw found (
          Settles-bind l _ _ o (object_of-ok h p o here) (
            after_length-Settles depth p f cs o _
              (put-IsLinked l h p (record o.node { len = len }) o linked here) known its_father
              few))
