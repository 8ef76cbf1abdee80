-- ===== src/Predecessor/Insertion.antt =====
-- insertChild and getInsertPos of AndNode in function.cpp.
use mathlib.Core.List.{reverse, reverse-cons, reverse-append}
use lib_msvl.Base.{
  ℕ, suc, ◌+◌, Bool, true, false, List, [], ◌∷◌, ◌++◌, append_assoc, ◌≡◌, refl, sym, ap, subst, ◌∙◌,
  ◌==◌, if◌then◌else◌, some, length, length-append, take, drop, take-append, drop-append, Run, ok,
  fault, ne→==, arith,
}
use lib_msvl.Base.Stateful.{return, undefined, ◌>>=◌}
use lib_msvl.Node.Store.{keep_type, same_type, bind-ok, bind-fault}
use lib_msvl.Predecessor.Objects.{Object, Heap, H, at_address, load, load-some, modify, childs_of}
use lib_msvl.Predecessor.Renewed.{modify-some}

-- The loop of getInsertPos over the children from the last one on, `seen` of which are behind it:
-- `rit.base()` stands behind the child, and `++` goes one further, where past the end it must not.
unfoldable pub insert_pos_back : ℕ → List ℕ → H ℕ
insert_pos_back seen [] = return 0
insert_pos_back seen (p ∷ ps) = do
  o ← load p
  if same_type o.node.type keep_type
      then insert_pos_back (suc seen) ps
      else if seen == 0
      then undefined
      else return (length ps + 2)

-- getInsertPos
unfoldable pub insert_pos : ℕ → H ℕ
insert_pos this = do ps ← childs_of this; insert_pos_back 0 (reverse ps)

-- insertChild of a vector
unfoldable pub insert_new_childs : ℕ → List ℕ → H (Unit {0})
insert_new_childs this new = do
  i ← insert_pos this
  modify (λ o. record o { childs = take i o.childs ++ (new ++ drop i o.childs) }) this

-- insertChild
unfoldable pub insert_new_child : ℕ → ℕ → H (Unit {0})
insert_new_child this child = insert_new_childs this (child ∷ [])

-- An object stands at the address, which is a KEEP or is not.
abbrev pub HasKeep : Heap → Bool → ℕ → Type 0
HasKeep h b p = (o : Object) × (h.object p ≡ some o) × (same_type o.node.type keep_type ≡ b)

abbrev pub AllKeep : Heap → List ℕ → Type 0
AllKeep h [] = Unit
AllKeep h (p ∷ ps) = HasKeep h true p × AllKeep h ps

AllKeep-append :
    (h : Heap) (ps : List ℕ) (q : ℕ) → AllKeep h ps → HasKeep h true q → AllKeep h (ps ++ (q ∷ []))
AllKeep-append h [] q all k = (k, tt)
AllKeep-append h (p ∷ ps) q all k = (all.0, AllKeep-append h ps q all.1 k)

AllKeep-reverse : (h : Heap) (ps : List ℕ) → AllKeep h ps → AllKeep h (reverse ps)
AllKeep-reverse h [] all = tt
AllKeep-reverse h (p ∷ ps) all =
    subst (AllKeep h) (sym (reverse-cons p ps))
      (AllKeep-append h (reverse ps) p (AllKeep-reverse h ps all.1) all.0)

length-reverse : (ps : List ℕ) → length (reverse ps) ≡ length ps
length-reverse [] = refl
length-reverse (p ∷ ps) =
    omega
      (arith, ap length (reverse-cons p ps), length-append (reverse ps) (p ∷ []), length-reverse ps)

reverse-around :
    (front ks : List ℕ) (x : ℕ) → reverse (front ++ (x ∷ ks)) ≡ reverse ks ++ (x ∷ reverse front)
reverse-around front ks x =
    reverse-append front (x ∷ ks)
    ∙ ap (λ l. l ++ reverse front) (reverse-cons x ks)
    ∙ append_assoc (reverse ks) (x ∷ []) (reverse front)

insert_pos_back-found :
    (h : Heap) (seen : ℕ) (zs rest : List ℕ) (x : ℕ)
    → AllKeep h zs
    → HasKeep h false x
    → insert_pos_back seen (zs ++ (x ∷ rest)) h
      ≡ (if seen + length zs == 0 then undefined else return (length rest + 2)) h
unfolding insert_pos_back
insert_pos_back-found h seen [] rest x all (o, at_x, k) =
    bind-ok _ (load-some h x at_x)
    ∙ rw k (ap (λ n. (if n == 0 then undefined else return (length rest + 2)) h) (omega arith))
insert_pos_back-found h seen (z ∷ zs) rest x all k =
    let (o, at_z, e) = all.0 in
    bind-ok _ (load-some h z at_z)
    ∙ rw e (
        insert_pos_back-found h (suc seen) zs rest x all.1 k
        ∙ ap (λ n. (if n == 0 then undefined else return (length rest + 2)) h) (omega arith))

-- What insertChild does to the object `o` at `this`, where `x` is the last child that is not a
-- KEEP, and the children `ks` stand behind it.
abbrev pub placed : ℕ → Object → List ℕ → ℕ → List ℕ → List ℕ → Heap → Run (Unit {0} × Heap)
placed this o front x [] new h = fault
placed this o front x (k ∷ ks) new h = ok (
  tt,
  record h {
    object =
        at_address this (some (record o { childs = (front ++ (x ∷ k ∷ [])) ++ (new ++ ks) }))
          h.object;
  },
)

module _ (h : Heap) (this : ℕ) (o : Object) (at_this : h.object this ≡ some o) where
  insert_pos-found :
      (front ks : List ℕ) (x : ℕ)
      → o.childs ≡ front ++ (x ∷ ks)
      → HasKeep h false x
      → AllKeep h ks
      → insert_pos this h ≡ (if length ks == 0 then undefined else return (length front + 2)) h
  unfolding insert_pos childs_of
  insert_pos-found front ks x e k all =
      bind-ok _ (bind-ok _ (load-some h this at_this))
      ∙ ap (λ l. insert_pos_back 0 l h) (ap reverse e ∙ reverse-around front ks x)
      ∙ insert_pos_back-found h 0 (reverse ks) (reverse front) x (AllKeep-reverse h ks all) k
      ∙ ap (λ n. (if n == 0 then undefined else return (length (reverse front) + 2)) h)
          (omega (arith, length-reverse ks))
      ∙ ap (λ n. (if length ks == 0 then undefined else return (n + 2)) h) (length-reverse front)

  split_two :
      (front ks new : List ℕ) (x k : ℕ)
      → o.childs ≡ front ++ (x ∷ k ∷ ks)
      → take (length front + 2) o.childs ++ (new ++ drop (length front + 2) o.childs)
        ≡ (front ++ (x ∷ k ∷ [])) ++ (new ++ ks)
  split_two front ks new x k e =
      let len : length (front ++ (x ∷ k ∷ [])) ≡ length front + 2 =
        omega (arith, length-append front (x ∷ k ∷ [])) in
      let parts : o.childs ≡ (front ++ (x ∷ k ∷ [])) ++ ks =
        e ∙ sym (append_assoc front (x ∷ k ∷ []) ks) in
      ap (λ n. take n o.childs ++ (new ++ drop n o.childs)) (sym len)
      ∙ ap
          (λ l.
            take (length (front ++ (x ∷ k ∷ []))) l
            ++ (new ++ drop (length (front ++ (x ∷ k ∷ []))) l))
          parts
      ∙ ap
          (λ l. l ++ (new ++ drop (length (front ++ (x ∷ k ∷ []))) ((front ++ (x ∷ k ∷ [])) ++ ks)))
          (take-append (front ++ (x ∷ k ∷ [])) ks)
      ∙ ap (λ l. (front ++ (x ∷ k ∷ [])) ++ (new ++ l)) (drop-append (front ++ (x ∷ k ∷ [])) ks)

  -- insertChild of the children `new` into a node of which `x` is the last child that is not a
  -- KEEP: where nothing stands behind `x`, the position is past the end of the vector, and it is
  -- undefined behaviour; otherwise the new children stand behind the KEEP that follows `x`, in
  -- their order, and not right behind `x`.
  pub insert_new_childs-placed :
      (front ks new : List ℕ) (x : ℕ)
      → o.childs ≡ front ++ (x ∷ ks)
      → HasKeep h false x
      → AllKeep h ks
      → insert_new_childs this new h ≡ placed this o front x ks new h
  unfolding insert_new_childs
  insert_new_childs-placed front [] new x e k all =
      bind-fault _ (insert_pos-found front [] x e k all)
  insert_new_childs-placed front (j ∷ ks) new x e k all =
      bind-ok _ (
        insert_pos-found front (j ∷ ks) x e k all
        ∙ rw (ne→== (suc (length ks)) 0 (λ z. omega arith)) refl)
      ∙ modify-some _ this h at_this
      ∙ ap
          (λ l.
            ok
              (tt, record h { object = at_address this (some (record o { childs = l })) h.object }))
          (split_two front ks new x j e)
