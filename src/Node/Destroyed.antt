-- ===== src/Node/Destroyed.antt =====
-- What node_destroy of node.c does to the children.
use lib_msvl.Base.{
  ℕ, zero, suc, ◌≡◌, ◌≢◌, refl, subst, sym, ap, ◌∙◌, Bool, true, false, not, ◌⊎◌, inl, inr,
  Bool-cases, Option-cases, Option, none, some, List, [], ◌∷◌, ◌==◌, ==→eq, ne→==, eq→==,
  if◌then◌else◌, arith, Run, ok, fault, exit, out_of_fuel,
}
use lib_msvl.Base
use lib_msvl.Node.Store.{
  Node, Store, M, update, update-same, update-other, bind-ok, bind-fault, load-some, load-none,
  modify-some,
}
use lib_msvl.Node.Children.{slots_of}
use lib_msvl.Node.Destroy.{free, free_all, destroy_slots, finish_destroy, destroy}

free-some :
    (s : Store) (p : ℕ) (n : Node) → p ≢ 0 → s p ≡ some n → free p s ≡ ok (tt, update p none s)
unfolding free
free-some s p n h e = rw (ne→== p 0 h) (bind-ok _ (load-some s p e))

free-none : (s : Store) (p : ℕ) → p ≢ 0 → s p ≡ none → free p s ≡ fault
unfolding free
free-none s p h e = rw (ne→== p 0 h) (bind-fault _ (load-none s p e))

free-null : (s : Store) (p : ℕ) → (p == 0) ≡ true → free p s ≡ ok (tt, s)
unfolding free
free-null s p e = rw e refl

-- Either undefined behaviour, or a return that leaves no node where there was none.
Gone : ℕ → Run (Unit {0} × Store) → Type 0
Gone q r = (r ≡ fault) ⊎ ((s' : Store) × (r ≡ ok (tt, s')) × (s' q ≡ none))

update-none : (p q : ℕ) (s : Store) → s q ≡ none → update p none s q ≡ none
update-none p q s e = elim (Bool-cases (q == p)) [ inl h ↦ rw h refl | inr h ↦ rw h e ]

nonzero : (p : ℕ) → (p == 0) ≡ false → p ≢ 0
nonzero p z e = absurd (ground arith)

Gone-step :
    (q p : ℕ) (ps : List ℕ) (s s' : Store)
    → free p s ≡ ok (tt, s')
    → Gone q (free_all ps s')
    → Gone q (free_all (p ∷ ps) s)
unfolding free_all
Gone-step q p ps s s' e h = subst (Gone q) (sym (bind-ok (λ x. free_all ps x.1) e)) h

Gone-free_all : (ps : List ℕ) (q : ℕ) (s : Store) → s q ≡ none → Gone q (free_all ps s)
unfolding free_all Gone
Gone-free_all [] q s e = inr (s, refl, e)
Gone-free_all (p ∷ ps) q s e = elim (Bool-cases (p == 0)) [
  | inl z ↦ Gone-step q p ps s s (free-null s p z) (Gone-free_all ps q s e)
  | inr z ↦ elim (Option-cases (s p)) [
    | inl h ↦ inl (bind-fault _ (free-none s p (nonzero p z) h))
    | inr (n, h) ↦
        Gone-step q p ps s (update p none s) (free-some s p n (nonzero p z) h)
          (Gone-free_all ps q (update p none s) (update-none p q s e))
  ]
]

-- The array of children is released by a destructor that reads the freed node.
module _ (erased : Bool) (depth : ℕ) where
  destroy-freed :
      (p : ℕ) (s : Store) → p ≢ 0 → s p ≡ none → destroy false erased (suc depth) p s ≡ fault
  unfolding destroy
  destroy-freed p s h e = rw (ne→== p 0 h) (bind-fault _ (load-none s p e))

  -- The release of the children, in a store where the first is a node.
  release-fault :
      (k : M (Unit {0})) (p : ℕ) (ps : List ℕ) (s : Store)
      → p ≢ 0
      → Base.◌>>=◌ (free_all (p ∷ ps) s) (λ x.
        Base.◌>>=◌ (destroy_slots (destroy false erased (suc depth)) (p ∷ ps) x.1) (λ y. k y.1))
        ≡ fault
  unfolding destroy_slots Gone free_all
  release-fault k p ps s h = elim (Option-cases (s p)) [
    | inl e ↦ bind-fault _ (bind-fault _ (free-none s p h e))
    | inr (n, e) ↦ elim (Gone-free_all ps p (update p none s) (update-same p none s)) [
      | inl f ↦ bind-fault _ (bind-ok _ (free-some s p n h e) ∙ f)
      | inr (s', f, g) ↦
          bind-ok _ (bind-ok _ (free-some s p n h e) ∙ f)
          ∙ bind-fault _ (bind-fault _ (destroy-freed p s' h g))
    ]
  ]

  -- node_destroy of a node whose first child is not NULL, outside of a copy: the children are
  -- freed, and then the array's destructor destroys them again, which is undefined behaviour.
  pub destroy-childs :
      (this p : ℕ) (ps : List ℕ) (s : Store) (n : Node)
      → this ≢ 0
      → s this ≡ some n
      → slots_of n.childs ≡ p ∷ ps
      → p ≢ 0
      → destroy false erased (suc (suc depth)) this s ≡ fault
  unfolding destroy
  destroy-childs this p ps s n h at_this slots hp = rw (ne→== this 0 h) (
      bind-ok _ (load-some s this at_this)
      ∙ bind-ok _ (modify-some s this (λ m. record m { father = 0 }) at_this)
      ∙ ap
          (λ l. Base.◌>>=◌ (free_all l s1) (λ x.
            Base.◌>>=◌ (destroy_slots (destroy false erased (suc depth)) l x.1)
              (λ y. finish_destroy false erased this y.1)))
          slots
      ∙ release-fault (finish_destroy false erased this) p ps s1 hp)
    where
      s1 : Store
      s1 = update this (some (record n { father = 0 })) s

-- The node is gone, and every other address is as it was.
unfoldable pub Freed : Store → ℕ → Run (Unit {0} × Store) → Type 0
Freed s this r =
    (s' : Store) × (r ≡ ok (tt, s')) × (s' this ≡ none) × ((q : ℕ) → q ≢ this → s' q ≡ s q)

-- node_destroy of a node with no child frees it and leaves every other node as it is, both while
-- g_is_copied is set and outside of a copy, there if the map of nodes erases its pair.
pub destroy-Freed :
    (depth this : ℕ) (s : Store) (n : Node) (erased : Bool)
    → this ≢ 0
    → s this ≡ some n
    → slots_of n.childs ≡ []
    → Freed s this (destroy true erased (suc depth) this s)
      × Freed s this (destroy false true (suc depth) this s)
unfolding destroy finish_destroy free_all destroy_slots Freed
destroy-Freed depth this s n erased h at_this slots = (
  (
    update this none s,
    rw (ne→== this 0 h) (free-some s this n h at_this),
    update-same this none s,
    λ q d. update-other this q none s d,
  ),
  (
    update this none s2,
    rw (ne→== this 0 h) (
        bind-ok _ (load-some s this at_this)
        ∙ bind-ok _ (modify-some s this (λ m. record m { father = 0 }) at_this)
        ∙ ap
            (λ l. Base.◌>>=◌ (free_all l s1) (λ x.
              Base.◌>>=◌ (destroy_slots (destroy false true depth) l x.1)
                (λ y. finish_destroy false true this y.1)))
            slots
        ∙ bind-ok _ (
            modify-some s1 this (λ m. record m { thread = 0; mutex = 0; cond = 0 })
              (update-same this _ s))
        ∙ free-some s2 this _ h (update-same this _ s1)),
    update-same this none s2,
    λ q d. update-other this q none s2 d ∙ update-other this q _ s1 d ∙ update-other this q _ s d,
  ),
)
  where
    s1 : Store
    s1 = update this (some (record n { father = 0 })) s

    s2 : Store
    s2 = update this (some (record n { father = 0; thread = 0; mutex = 0; cond = 0 })) s1
