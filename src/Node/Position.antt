-- ===== src/Node/Position.antt =====
-- Where and_node_insert_child and and_node_insert_childs of node.c put the children.
use lib_msvl.Base.{
  ℕ, zero, suc, ◌<◌, ◌≤◌, ◌≡◌, refl, sym, ap, ◌∙◌, Bool, true, false, Bool-cases, inl, inr, subst,
  ◌==◌, ==→eq, Option, some, List, [], ◌∷◌, ◌++◌, length, take, drop, get_elem?, take-append,
  drop-append, take-append-drop, length-take, length-append, le→ltb, arith, ok, Run,
}
use lib_msvl.Node.Store.{
  NodeType, Childs, Node, Store, M, pure, modify, update, bind-ok, load-some, modify-some,
}
use lib_msvl.Node.Fields.{get_type-some}
use lib_msvl.Node.Children.{
  insert_slot, slot_type, spare_after, is_keep, insert_pos_from, get_insert_pos, insert_child,
  insert_slots, insert_childs, slots_of,
}

length-prefix : (i : ℕ) (xs : List ℕ) → i ≤ length xs → length (take i xs) ≡ i
length-prefix i xs h = omega (arith, length-take i xs, h)

-- Every slot points to a node, and `kind` is what its type is by index.
unfoldable pub HasKinds : Store → List ℕ → (ℕ → NodeType) → Type 0
HasKinds s slots kind =
    (i : ℕ)
    → i < length slots
    → (p : ℕ) × (n : Node) × (get_elem? slots i ≡ some p) × (s p ≡ some n) × (n.type ≡ kind i)

-- The index of the last child that is no KEEP, or 0 if there is none.
pub data InsertPos (kind : ℕ → NodeType) (size : ℕ) : ℕ → Type 0 where
  at_last :
      (i : ℕ)
      → i < size
      → is_keep (kind i) ≡ false
      → ((j : ℕ) → i < j → j < size → is_keep (kind j) ≡ true)
      → InsertPos kind size i
  at_front : ((j : ℕ) → j < size → is_keep (kind j) ≡ true) → InsertPos kind size 0

InsertPos-bound : {kind : ℕ → NodeType} {size i : ℕ} → InsertPos kind size i → i ≤ size
InsertPos-bound (at_last i b h g) = omega arith
InsertPos-bound (at_front g) = omega arith

pub slot_type-some :
    (s : Store) (slots : List ℕ) (i p : ℕ) (n : Node) (t : NodeType)
    → get_elem? slots i ≡ some p
    → s p ≡ some n
    → n.type ≡ t
    → slot_type (get_elem? slots i) s ≡ ok (t, s)
slot_type-some s slots i p n t e at_p k =
    ap (λ o. slot_type o s) e ∙ get_type-some s p at_p ∙ ap (λ u. ok (u, s)) k

module _ (s : Store) (slots : List ℕ) (kind : ℕ → NodeType) (kinds : HasKinds s slots kind) where
  Found : ℕ → Type 0
  Found n = (i : ℕ) × (insert_pos_from n slots s ≡ ok (i, s)) × InsertPos kind (length slots) i

  keep_down :
      (i : ℕ)
      → is_keep (kind i) ≡ true
      → ((j : ℕ) → i < j → j < length slots → is_keep (kind j) ≡ true)
      → (j : ℕ) → i ≤ j
      → j < length slots
      → is_keep (kind j) ≡ true
  keep_down i k keep j l h = elim (Bool-cases (i == j)) [
    | inl e ↦ subst (λ m. is_keep (kind m) ≡ true) (==→eq i j e) k
    | inr e ↦ keep j (ground arith) h
  ]

  branch :
      (i : ℕ) (b : Bool)
      → is_keep (kind i) ≡ b
      → (elim (is_keep (kind i)) as (λ _. M ℕ) [ false ↦ pure i | true ↦ insert_pos_from i slots ])
          s
        ≡ (elim b as (λ _. M ℕ) [ false ↦ pure i | true ↦ insert_pos_from i slots ]) s
  branch i b k =
      ap (λ b'. (elim b' as (λ _. M ℕ) [ false ↦ pure i | true ↦ insert_pos_from i slots ]) s) k

  insert_pos_from-Found :
      (n : ℕ)
      → n ≤ length slots
      → ((j : ℕ) → n ≤ j → j < length slots → is_keep (kind j) ≡ true)
      → Found n
  unfolding HasKinds Found insert_pos_from
  insert_pos_from-Found zero b keep = (0, refl, at_front (λ j h. keep j (omega arith) h))
  insert_pos_from-Found (suc i) b keep =
      let (p, n, e, at_p, t) = kinds i (omega arith) in
      elim (Bool-cases (is_keep (kind i))) [
        | inl k ↦
            let (j, run, pos) = insert_pos_from-Found i (omega arith) (keep_down i k keep) in
            (
              j,
              bind-ok _ (slot_type-some s slots i p n (kind i) e at_p t) ∙ branch i true k ∙ run,
              pos,
            )
        | inr k ↦ (
          i,
          bind-ok _ (slot_type-some s slots i p n (kind i) e at_p t) ∙ branch i false k,
          at_last i (omega arith) k (λ j l h. keep j (omega arith) h),
        )
      ]

-- the slots of the array after an insertion
insert_slot-slots :
    (c : Childs) (xs ys : List ℕ) (p : ℕ)
    → c.slots ≡ xs ++ ys
    → (c' : Childs) × (insert_slot (length xs) p (some c) ≡ some c') × (c'.slots ≡ xs ++ (p ∷ ys))
unfolding insert_slot
insert_slot-slots c xs ys p e = (
  record {
    slots = take (length xs) c.slots ++ (p ∷ drop (length xs) c.slots);
    spare = spare_after (length c.slots) c.spare;
  },
  rw (le→ltb (length c.slots) (length xs) (omega (arith, ap length e, length-append xs ys))) refl,
  ap (λ l. take (length xs) l ++ (p ∷ drop (length xs) l)) e
      ∙ rw (take-append xs ys, drop-append xs ys) refl,
)

-- the list backwards, in front of another
pub reverse_onto : List ℕ → List ℕ → List ℕ
reverse_onto [] acc = acc
reverse_onto (p ∷ ps) acc = reverse_onto ps (p ∷ acc)

insert_slots-slots :
    (c : Childs) (xs ys ps : List ℕ)
    → c.slots ≡ xs ++ ys
    → (c' : Childs) × (insert_slots (length xs) ps (some c) ≡ some c')
      × (c'.slots ≡ xs ++ reverse_onto ps ys)
unfolding reverse_onto
insert_slots-slots c xs ys [] e = (c, refl, e)
insert_slots-slots c xs ys (p ∷ ps) e =
    let (c1, e1, f1) = insert_slot-slots c xs ys p e in
    let (c2, e2, f2) = insert_slots-slots c1 xs (p ∷ ys) ps f1 in (c2, rw e1 e2, f2)

-- `run` ends with the new slots put in at an insertion position, and nothing else changed.
pub ChildsInserted :
    Store → ℕ → Node → List ℕ → (ℕ → NodeType) → (ℕ → List ℕ) → Run (Unit {0} × Store) → Type 0
ChildsInserted s this n slots kind new run =
    (i : ℕ) × (c : Childs) × InsertPos kind (length slots) i
    × (run ≡ ok (tt, update this (some (record n { childs = some c })) s))
    × (c.slots ≡ new i)

module _ (s : Store) (this : ℕ) (n : Node) (c : Childs) (kind : ℕ → NodeType)
    (at_this : s this ≡ some n) (has : n.childs ≡ some c) (kinds : HasKinds s c.slots kind) where
  get_insert_pos-InsertPos :
      (i : ℕ) × (get_insert_pos this s ≡ ok (i, s)) × InsertPos kind (length c.slots) i
  unfolding get_insert_pos Found
  get_insert_pos-InsertPos =
      let (i, run, pos) =
        insert_pos_from-Found s c.slots kind kinds (length c.slots) (omega arith)
          (λ j l h. absurd (omega arith)) in
      (
        i,
        bind-ok _ (load-some s this at_this)
            ∙ ap (λ o. insert_pos_from (length (slots_of o)) (slots_of o) s) has
            ∙ run,
        pos,
      )

  put_in :
      (insertion : Option Childs → Option Childs) (c' : Childs)
      → insertion (some c) ≡ some c'
      → modify (λ m. record m { childs = insertion m.childs }) this s
        ≡ ok (tt, update this (some (record n { childs = some c' })) s)
  put_in insertion c' e =
      modify-some s this (λ m. record m { childs = insertion m.childs }) at_this
      ∙ ap (λ o. ok (tt, update this (some (record n { childs = o })) s)) (ap insertion has ∙ e)

  insert_childs-ChildsInserted :
      (childs : List ℕ)
      → ChildsInserted s this n c.slots kind
          (λ i. take i c.slots ++ reverse_onto childs (drop i c.slots))
          (insert_childs this childs s)
  unfolding ChildsInserted insert_childs
  insert_childs-ChildsInserted childs =
      let (i, run, pos) = get_insert_pos-InsertPos in
      let (c', e, f) =
        insert_slots-slots c (take i c.slots) (drop i c.slots) childs
          (sym (take-append-drop i c.slots)) in
      (
        i,
        c',
        pos,
        bind-ok _ run
            ∙ put_in (insert_slots i childs) c' (
                ap (λ k. insert_slots k childs (some c))
                  (sym (length-prefix i c.slots (InsertPos-bound pos)))
                ∙ e),
        f,
      )

  insert_child-ChildsInserted :
      (child : ℕ)
      → ChildsInserted s this n c.slots kind
          (λ i. take i c.slots ++ (child ∷ drop i c.slots))
          (insert_child this child s)
  unfolding ChildsInserted insert_child
  insert_child-ChildsInserted child =
      let (i, run, pos) = get_insert_pos-InsertPos in
      let (c', e, f) =
        insert_slot-slots c (take i c.slots) (drop i c.slots) child
          (sym (take-append-drop i c.slots)) in
      (
        i,
        c',
        pos,
        bind-ok _ run
            ∙ put_in (insert_slot i child) c' (
                ap (λ k. insert_slot k child (some c))
                  (sym (length-prefix i c.slots (InsertPos-bound pos)))
                ∙ e),
        f,
      )

  -- and_node_insert_childs of children that all point to nodes puts the new children, last first,
  -- before the last child that is no KEEP, or in front if there is none, and and_node_insert_child
  -- puts its child there; the other children keep their order and no other field of any node
  -- changes.
  pub insertions-ChildsInserted :
      (child : ℕ) (childs : List ℕ)
      → ChildsInserted s this n c.slots kind
          (λ i. take i c.slots ++ reverse_onto childs (drop i c.slots))
          (insert_childs this childs s)
        × ChildsInserted s this n c.slots kind
            (λ i. take i c.slots ++ (child ∷ drop i c.slots))
            (insert_child this child s)
  insertions-ChildsInserted child childs =
      (insert_childs-ChildsInserted childs, insert_child-ChildsInserted child)
