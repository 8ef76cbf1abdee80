-- ===== src/Predecessor/Links.antt =====
-- The links of the objects of function.cpp, and what the loops of the functions on lengths need of
-- them.
use lib_msvl.Base.{
  ℕ, ◌+◌, ◌<◌, ◌≡◌, ◌≢◌, refl, sym, ap, ◌∙◌, ◌⊎◌, Bool, true, false, not, ◌&&◌, ◌||◌, Bool-cases,
  inl, inr, List, [], ◌∷◌, ◌==◌, ==→eq, if◌then◌else◌, Run, ok, Option, none, some, is_some, deref,
  ◌>>=◌,
}
use lib_msvl.Node.Store.{leaf_type, len_code, same_type, bind-ok}
use lib_msvl.Predecessor.Tree.{ThreadNode}
use lib_msvl.Predecessor.Check.{is_empty_leaf}
use lib_msvl.Predecessor.Objects.{Object, Heap, object_of, put}
use lib_msvl.Predecessor.Lengths.{count_lengths, prj_scan}

-- the father and the children of an object
abbrev pub links : Option Object → Option (ℕ × List ℕ)
links none = none
links (some o) = some (o.father, o.childs)

-- The objects are linked as `l` says.
abbrev pub IsLinked : (ℕ → Option (ℕ × List ℕ)) → Heap → Type 0
IsLinked l h = (q : ℕ) → links (h.object q) ≡ l q

abbrev pub AllObjects : (ℕ → Option (ℕ × List ℕ)) → List ℕ → Type 0
AllObjects l [] = Unit
AllObjects l (p ∷ ps) = ((x : ℕ × List ℕ) × (l p ≡ some x)) × AllObjects l ps

abbrev pub is_in : ℕ → List ℕ → Bool
is_in child [] = false
is_in child (p ∷ ps) = p == child || is_in child ps

-- A father is NULL, or an object of a lower rank with the object among its children; and children
-- are objects.
abbrev pub IsForest : (ℕ → ℕ) → (ℕ → Option (ℕ × List ℕ)) → Type 0
IsForest rank l =
    (p f : ℕ) (cs : List ℕ)
    → l p ≡ some (f, cs)
    → (p ≢ 0)
      × ((f ≡ 0) ⊎ ((x : ℕ × List ℕ) × (l f ≡ some x) × (rank f < rank p) × (is_in p x.1 ≡ true)))
      × AllObjects l cs

linked_object :
    (m : Option Object) (f : ℕ) (cs : List ℕ)
    → links m ≡ some (f, cs)
    → (o : Object) × (m ≡ some o) × (o.father ≡ f) × (o.childs ≡ cs)
linked_object none f cs e = absurd cc
linked_object (some o) f cs e = (o, refl, cc, cc)

-- The run returns, and the links are as they were.
pub data Settles (l : ℕ → Option (ℕ × List ℕ)) (m : Run Heap) : Type 0 where
  settles : (h : Heap) → m ≡ ok h → IsLinked l h → Settles l m

pub object_of-ok : (h : Heap) (p : ℕ) (o : Object) → h.object p ≡ some o → object_of h p ≡ ok o
object_of-ok h p o e = ap deref e

ok-if :
    {A : Type 0} (b : Bool) (m k : Run A)
    → (r : A) × (m ≡ ok r)
    → (r : A) × (k ≡ ok r)
    → (r : A) × ((if b then m else k) ≡ ok r)
ok-if true m k s t = s
ok-if false m k s t = t

met_later :
    (b c : Bool) (ps : List ℕ) (pos : Option (List ℕ))
    → ((b || c) || is_some pos) ≡ true
    → (c || is_some (if b then some ps else pos)) ≡ true
met_later true true ps pos e = refl
met_later true false ps pos e = refl
met_later false c ps pos e = e

module _ (l : ℕ → Option (ℕ × List ℕ)) where
  pub object_at :
      (h : Heap) (p f : ℕ) (cs : List ℕ)
      → IsLinked l h
      → l p ≡ some (f, cs)
      → (o : Object) × (h.object p ≡ some o) × (o.father ≡ f) × (o.childs ≡ cs)
  object_at h p f cs linked e = linked_object (h.object p) f cs (linked p ∙ e)

  pub put-IsLinked :
      (h : Heap) (p : ℕ) (n : ThreadNode) (o : Object)
      → IsLinked l h
      → h.object p ≡ some o
      → IsLinked l (put p n o h)
  put-IsLinked h p n o linked e q = elim (Bool-cases (q == p)) [
    | inl same ↦ rw same (sym (ap links e) ∙ linked p ∙ ap l (sym (==→eq q p same)))
    | inr other ↦ rw other (linked q)
  ]

  pub Settles-bind :
      {A : Type 0} (m : Run A) (k : A → Run Heap) (a : A)
      → m ≡ ok a
      → Settles l (k a)
      → Settles l (m >>= k)
  Settles-bind m k a e (settles h e' linked) = settles h (bind-ok k e ∙ e') linked

  pub Settles-if :
      (b : Bool) (m k : Run Heap) → Settles l m → Settles l k → Settles l (if b then m else k)
  Settles-if true m k s t = s
  Settles-if false m k s t = t

  pub count_lengths-ok :
      (h : Heap) (ps : List ℕ) (nones emps : ℕ)
      → IsLinked l h
      → AllObjects l ps
      → (r : ℕ × ℕ) × (count_lengths h ps nones emps ≡ ok r)
  unfolding count_lengths
  count_lengths-ok h [] nones emps linked objects = ((nones, emps), refl)
  count_lengths-ok h (p ∷ ps) nones emps linked ((x, known), objects) =
      let (o, here, _, _) = object_at h p x.0 x.1 linked known in
      let (r, e) =
        ok-if (len_code o.node.len == 2) _ _ (count_lengths-ok h ps (nones + 1) emps linked objects)
          (ok-if (is_empty_leaf o.node) _ _ (count_lengths-ok h ps nones (emps + 1) linked objects)
            (count_lengths-ok h ps nones emps linked objects)) in
      (r, bind-ok _ (object_of-ok h p o here) ∙ e)

  pub prj_scan-ok :
      (h : Heap) (child : ℕ) (ps : List ℕ) (sum : ℕ) (pos : Option (List ℕ))
      → IsLinked l h
      → AllObjects l ps
      → (is_in child ps || is_some pos) ≡ true
      → (r : ℕ × Option (List ℕ)) × (prj_scan h child ps sum pos ≡ ok r) × (is_some r.1 ≡ true)
  unfolding prj_scan
  prj_scan-ok h child [] sum pos linked objects met = ((sum, pos), refl, met)
  prj_scan-ok h child (p ∷ ps) sum pos linked ((x, known), objects) met =
      let (o, here, _, _) = object_at h p x.0 x.1 linked known in
      let (r, e, met') =
        prj_scan-ok h child ps
          (if not (len_code o.node.len == 0) && same_type o.node.type leaf_type
            then sum + 1
            else sum)
          (if p == child then some ps else pos) linked objects
          (met_later (p == child) (is_in child ps) ps pos met) in
      (r, bind-ok _ (object_of-ok h p o here) ∙ e, met')
