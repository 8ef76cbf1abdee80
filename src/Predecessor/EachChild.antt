-- ===== src/Predecessor/EachChild.antt =====
-- AndNode::excute of function.cpp over leaves whose threads each call $$Push once in a turn.
use lib_msvl.Base.{
  ℕ, zero, suc, ◌+◌, ◌<◌, Bool, true, false, not, ◌||◌, none, some, List, [], ◌∷◌, ◌++◌,
  append_assoc, append-nil, map, ◌≡◌, ◌≢◌, refl, sym, ap, ◌∙◌, ◌==◌, eq→==, ne→==, le→leb, lt→leb,
  if◌then◌else◌, length, length-append, get_elem?, ok, arith,
}
use lib_msvl.Base.Stateful.{return, undefined, ◌>>◌}
use lib_msvl.Node.Store.{and_type, more, empty, none_len, bind-ok}
use lib_msvl.Predecessor.Tree.{has_exited}
use lib_msvl.Predecessor.Check.{leaf_node_check}
use lib_msvl.Predecessor.Objects.{
  Object, Pushed, Heap, hands_back, Program, H, at_address, load-some, modify_node, childs_of,
  child_at,
}
use lib_msvl.Predecessor.OnHeap.{and_childs, and_correct, leaf_correct, correct_by, is_correct}
use lib_msvl.Predecessor.Parts.{living, excute-give_part, give_part-hands_back, or_false-read}
use lib_msvl.Predecessor.Renewed.{modify-some}
use lib_msvl.Predecessor.Excute.{
  is_changed, give_part, excute_childs, and_excute, excute_by, excute,
}
use lib_msvl.Predecessor.Returned.{ManagerTurn}

-- Such a leaf stands at `p`, which is not the statement itself, and its thread still runs.
abbrev pub LivingLeaf : Heap → ℕ → ℕ → Type 0
LivingLeaf h this p =
    (x : Object) × (h.object p ≡ some (living x))
    × (has_exited h.exits (living x).node ≡ false)
    × (p ≢ this)

abbrev pub AllLiving : Heap → ℕ → List ℕ → Type 0
AllLiving h this [] = Unit
AllLiving h this (p ∷ ps) = LivingLeaf h this p × AllLiving h this ps

-- the threads of the leaves
abbrev pub threads : (h : Heap) (this : ℕ) (ps : List ℕ) → AllLiving h this ps → List ℕ
threads h this [] all = []
threads h this (p ∷ ps) all = all.0.0.node.thread ∷ threads h this ps all.1

-- The AND at `this` when isCorrectAndExit has looked at it, and what $$Push has collected.
abbrev pub looked_at : ℕ → Object → List Pushed → Heap → Heap
looked_at this o es h = record h {
  object = at_address this (some (record o { node = record o.node { len = more } })) h.object;
  prsnt = es;
}

get_elem?-append :
    (front : List ℕ) (p : ℕ) (ps : List ℕ) → get_elem? (front ++ (p ∷ ps)) (length front) ≡ some p
get_elem?-append [] p ps = refl
get_elem?-append (q ∷ front) p ps = get_elem?-append front p ps

module _ (prog : Program) (entry : ℕ → Pushed)
    (pushes : (t : ℕ) (g : Heap)
      → prog.part t g ≡ hands_back (record g { prsnt = g.prsnt ++ (entry t ∷ []) })) where
  give_part-pushes :
      (t : ℕ) (h : Heap)
      → ManagerTurn h
      → give_part prog t h ≡ ok (tt, record h { prsnt = h.prsnt ++ (entry t ∷ []) })
  give_part-pushes t h own =
      give_part-hands_back prog t h _ (pushes t (record h { turn = t }))
      ∙ ap (λ k. ok (tt, record h { turn = k; prsnt = h.prsnt ++ (entry t ∷ []) })) (sym own)

  module _ (h : Heap) (p : ℕ) (x : Object) (at_p : h.object p ≡ some (living x))
      (runs : has_exited h.exits (living x).node ≡ false) where
    leaf-excute :
        (fuel : ℕ)
        → ManagerTurn h
        → h.path_false ≡ some false
        → excute prog (suc fuel) p h
          ≡ ok (tt, record h { prsnt = h.prsnt ++ (entry x.node.thread ∷ []) })
    leaf-excute fuel own path =
        excute-give_part prog h p x at_p runs fuel path ∙ give_part-pushes x.node.thread h own

    is_correct-living : (depth : ℕ) → is_correct (suc depth) p h ≡ ok (false, h)
    unfolding is_correct correct_by leaf_correct leaf_node_check
    is_correct-living depth =
        bind-ok _ (load-some h p at_p)
        ∙ bind-ok _ (load-some h p at_p)
        ∙ ap (λ b. ok (b || false, h)) runs

  module _ (h : Heap) (this depth : ℕ) where
    and_childs-living :
        (ps : List ℕ) (i : ℕ)
        → AllLiving h this ps
        → and_childs (suc depth) (is_correct (suc depth)) this ps i 0 0 h ≡ ok ((0, 0), h)
    unfolding and_childs
    and_childs-living [] i all = refl
    and_childs-living (p ∷ ps) i ((x, at_p, runs, apart), all) =
        bind-ok _ (is_correct-living h p x at_p runs depth)
        ∙ bind-ok _ (load-some h p at_p)
        ∙ and_childs-living ps (i + 1) all

  module _ (h : Heap) (this : ℕ) (o : Object) (own : ManagerTurn h)
      (path : h.path_false ≡ some false) where
    childs_of-looked_at :
        (es : List Pushed) (ps : List ℕ)
        → o.childs ≡ ps
        → childs_of this (looked_at this o es h) ≡ ok (ps, looked_at this o es h)
    unfolding childs_of
    childs_of-looked_at es ps e =
        let here : (looked_at this o es h).object this
            ≡ some (record o { node = record o.node { len = more } }) =
          rw (eq→== this this refl) refl in
        bind-ok _ (load-some (looked_at this o es h) this here)
        ∙ ap (λ l. ok (l, looked_at this o es h)) e

    child_at-found :
        (front rest : List ℕ) (p : ℕ) (g : Heap)
        → child_at (front ++ (p ∷ rest)) (length front) g ≡ ok (p, g)
    child_at-found front rest p g =
        ap (λ x. (elim x as (λ _. H ℕ) [ none ↦ undefined | some q ↦ return q ]) g)
          (get_elem?-append front p rest)

    is_changed-living :
        (p : ℕ) (x : Object) (g : Heap)
        → g.object p ≡ some (living x)
        → is_changed p g ≡ ok (false, g)
    unfolding is_changed
    is_changed-living p x g at_p = bind-ok _ (load-some g p at_p)

    excute_childs-living :
        (depth fuel : ℕ) (front ps : List ℕ) (es : List Pushed)
        → o.childs ≡ front ++ ps
        → (all : AllLiving h this ps) → length ps < fuel
        → excute_childs prog
            (excute prog (suc depth))
            fuel
            this
            (length front)
            (looked_at this o es h)
          ≡ ok (tt, looked_at this o (es ++ map entry (threads h this ps all)) h)
    unfolding excute_childs
    excute_childs-living depth zero front ps es e all few = absurd (omega arith)
    excute_childs-living depth (suc fuel) front [] es e all few =
        bind-ok _ (childs_of-looked_at es (front ++ []) e)
        ∙ rw (le→leb (length (front ++ [])) (length front) (omega (arith, length-append front [])))
            (ap (λ l. ok (tt, looked_at this o l h)) (sym (append-nil es)))
    excute_childs-living depth (suc fuel) front (p ∷ ps) es e ((x, at_p, runs, apart), all) few =
        let there : (looked_at this o es h).object p ≡ some (living x) =
          rw (ne→== p this apart) at_p in
        let more_es : List Pushed = es ++ (entry x.node.thread ∷ []) in
        bind-ok _ (childs_of-looked_at es (front ++ (p ∷ ps)) e)
        ∙ rw
            (lt→leb (length (front ++ (p ∷ ps))) (length front)
              (omega (arith, length-append front (p ∷ ps))))
            (bind-ok _ (child_at-found front ps p (looked_at this o es h))
              ∙ bind-ok _ (leaf-excute (looked_at this o es h) p x there runs depth own path)
              ∙ bind-ok _ (is_changed-living p x (looked_at this o more_es h) there)
              ∙ ap
                  (λ i.
                    excute_childs prog (excute prog (suc depth)) fuel this i
                      (looked_at this o more_es h))
                  (sym (length-append front (p ∷ [])))
              ∙ excute_childs-living depth fuel (front ++ (p ∷ [])) ps more_es
                  (e ∙ sym (append_assoc front (p ∷ []) ps)) all (omega arith)
              ∙ ap (λ l. ok (tt, looked_at this o l h))
                  (append_assoc es (entry x.node.thread ∷ []) (map entry (threads h this ps all))))

    module _ (at_this : h.object this ≡ some o) (is_and : o.node.type ≡ and_type)
        (none_ended : o.node.has_empty ≡ false) (some_there : 0 < length o.childs)
        (all : AllLiving h this o.childs) where
      -- what follows the loop of isCorrectAndExit, where no child has been counted
      abbrev verdict : Bool → Bool → H Bool
      verdict ended b =
          if not ended
          then (do
            modify_node (λ n. record n { len = if b then none_len else more }) this
            return false)
          else if b
          then (do modify_node (λ n. record n { len = empty }) this; return true)
          else return false

      and_correct-living :
          (depth : ℕ) → is_correct (suc (suc depth)) this h ≡ ok (false, looked_at this o h.prsnt h)
      unfolding is_correct correct_by and_correct modify_node childs_of
      and_correct-living depth =
          bind-ok _ (load-some h this at_this)
          ∙ ap (λ t. correct_by (suc depth) (is_correct (suc depth)) t this h) is_and
          ∙ bind-ok _ (bind-ok _ (load-some h this at_this))
          ∙ bind-ok _ (and_childs-living h this depth o.childs 0 all)
          ∙ bind-ok _ (load-some h this at_this)
          ∙ ap (λ b. verdict b (0 == length o.childs) h) none_ended
          ∙ ap (λ b. verdict false b h)
              (ne→== 0 (length o.childs) (λ e. omega (arith, e, some_there)))
          ∙ bind-ok _
              (modify-some (λ x. record x { node = record x.node { len = more } }) this h at_this)

      -- `excute` of an AND that has children and has not seen one end, begun by the manager with
      -- the turn while the path is not false: where the children are leaves whose threads run and
      -- have called MyPauseThreadInit, and each thread calls $$Push once in a turn and hands it
      -- back, it returns with more fuel than there are children; every child has had exactly one
      -- turn, in the order of the children, and nothing else has changed but that the length of the
      -- AND is MORE.
      pub excute-each_child :
          (fuel : ℕ)
          → length o.childs < suc fuel
          → excute prog (suc (suc fuel)) this h
            ≡ ok (tt, looked_at this o (h.prsnt ++ map entry (threads h this o.childs all)) h)
      unfolding excute excute_by and_excute
      excute-each_child fuel few =
          bind-ok _ (load-some h this at_this)
          ∙ ap (λ t. excute_by prog (excute prog (suc fuel)) (suc fuel) t this h) is_and
          ∙ bind-ok _ (and_correct-living fuel)
          ∙ bind-ok _ (or_false-read (looked_at this o h.prsnt h) false false path)
          ∙ excute_childs-living fuel (suc fuel) [] o.childs h.prsnt refl all few
