-- ===== src/Node/Verdict/Ranks.antt =====
-- Trees of nodes by rank, and how the accesses of node.c to a node come to an end.
use lib_msvl.Base.{
  ℕ, zero, suc, ◌+◌, ◌<◌, ◌≤◌, ◌≡◌, refl, sym, ap, subst, ◌∙◌, Bool, true, false, not, ◌&&◌, ◌||◌,
  Bool-cases, inl, inr, Option, some, none, List, [], ◌∷◌, length, ◌==◌, ==→eq, if◌then◌else◌, Run,
  ok, fault, exit, out_of_fuel, arith,
}
use lib_msvl.Base
use lib_msvl.Node.Store.{
  NodeLength, Node, Store, M, pure, load, modify, update, bind-ok, bind-fault, load-some, load-none,
  modify-some, ◌>>◌,
}
use lib_msvl.Node.Fields.{set_len}
use lib_msvl.Node.Children.{slots_of}

abbrev pub AllBelow : (ℕ → ℕ) → ℕ → List ℕ → Type 0
AllBelow rank k [] = Unit
AllBelow rank k (p ∷ ps) = (rank p < k) × AllBelow rank k ps

-- The children of a node have a lower rank than the node.
abbrev pub IsRanked : (ℕ → ℕ) → Store → Type 0
IsRanked rank s = (p : ℕ) (n : Node) → s p ≡ some n → AllBelow rank (rank p) (slots_of n.childs)

-- The run comes to an end: with a value, in undefined behaviour, or in a call of exit.
pub data Stops (rank : ℕ → ℕ) {A : Type 0} (m : Run (A × Store)) : Type 0 where
  returns : (a : A) (s : Store) → m ≡ ok (a, s) → IsRanked rank s → Stops rank m
  faults : m ≡ fault → Stops rank m
  exits : (n : ℕ) → m ≡ exit n → Stops rank m

module _ (rank : ℕ → ℕ) where
  pub Stops-bind :
      {A B : Type 0} (m : Run (A × Store)) (k : A × Store → Run (B × Store))
      → Stops rank m
      → ((a : A) (s : Store) → IsRanked rank s → Stops rank (k (a, s)))
      → Stops rank (Base.◌>>=◌ m k)
  Stops-bind m k (returns a s e r) g = subst (λ x. Stops rank x) (sym (bind-ok k e)) (g a s r)
  Stops-bind m k (faults e) g = faults (ap (λ q. Base.◌>>=◌ q k) e)
  Stops-bind m k (exits n e) g = exits n (ap (λ q. Base.◌>>=◌ q k) e)

  pub Stops-if :
      {A : Type 0} (b : Bool) (m k : M A) (s : Store)
      → Stops rank (m s)
      → Stops rank (k s)
      → Stops rank ((if b then m else k) s)
  Stops-if true m k s h h' = h
  Stops-if false m k s h h' = h'

  pub load-Stops : (p : ℕ) (s : Store) → IsRanked rank s → Stops rank (load p s)
  load-Stops p s r = by_node (s p) refl
    where
      by_node : (o : Option Node) → s p ≡ o → Stops rank (load p s)
      by_node none e = faults (load-none s p e)
      by_node (some n) e = returns n s (load-some s p e) r

  changed-IsRanked :
      (f : Node → Node) (p : ℕ) (n : Node) (s : Store)
      → ((m : Node) → (f m).childs ≡ m.childs)
      → s p ≡ some n
      → IsRanked rank s
      → IsRanked rank (update p (some (f n)) s)
  changed-IsRanked f p n s same e r q m e' = elim (Bool-cases (q == p)) [
    | inl at_p ↦
        let now : some (f n) ≡ some m = sym (ap (λ b. if b then some (f n) else s q) at_p) ∙ e' in
        let here : f n ≡ m = cc in
        subst (λ k. AllBelow rank (rank k) (slots_of m.childs)) (sym (==→eq q p at_p))
          (subst (λ c. AllBelow rank (rank p) (slots_of c)) (sym (same n) ∙ ap (λ x. x.childs) here)
            (r p n e))
    | inr other ↦ r q m (sym (ap (λ b. if b then some (f n) else s q) other) ∙ e')
  ]

  -- A read, and what follows it of the node that stands there.
  pub load-then :
      {B : Type 0} (p : ℕ) (s : Store) (k : Node × Store → Run (B × Store))
      → ((n : Node) → s p ≡ some n → Stops rank (k (n, s)))
      → Stops rank (Base.◌>>=◌ (load p s) k)
  load-then {B} p s k each = by_node (s p) refl
    where
      by_node : (o : Option Node) → s p ≡ o → Stops rank (Base.◌>>=◌ (load p s) k)
      by_node none e = faults (bind-fault k (load-none s p e))
      by_node (some n) e =
          subst (λ m. Stops rank {A = B} m) (sym (bind-ok k (load-some s p e))) (each n e)

  -- a change of a field other than the children
  pub modify-Stops :
      (f : Node → Node) (p : ℕ) (s : Store)
      → ((n : Node) → (f n).childs ≡ n.childs)
      → IsRanked rank s
      → Stops rank (modify f p s)
  unfolding modify
  modify-Stops f p s same r = by_node (s p) refl
    where
      by_node : (o : Option Node) → s p ≡ o → Stops rank (modify f p s)
      by_node none e = faults (bind-fault _ (load-none s p e))
      by_node (some n) e = returns tt _ (modify-some s p f e) (changed-IsRanked f p n s same e r)

  pub set_len-Stops :
      (l : NodeLength) (p : ℕ) (s : Store) → IsRanked rank s → Stops rank (set_len l p s)
  unfolding set_len
  set_len-Stops l p s r = modify-Stops (λ n. record n { len = l }) p s (λ n. refl) r

  -- a length that is set, and the verdict
  pub verdict-Stops :
      (b : Bool) (l : NodeLength) (p : ℕ) (s : Store)
      → IsRanked rank s
      → Stops rank ((do set_len l p; pure b) s)
  verdict-Stops b l p s r = Stops-bind _ _ (set_len-Stops l p s r) (λ a s' r'. returns b s' refl r')
