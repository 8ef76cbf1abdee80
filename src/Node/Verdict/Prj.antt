-- ===== src/Node/Verdict/Prj.antt =====
-- prj_node_is_correct_and_exit of node.c, whose loop never meets its end.
use lib_msvl.Base.{
  ℕ, ◌+◌, ◌*◌, ◌-◌, ◌≡◌, refl, ◌∙◌, false, List, [], ◌∷◌, ne→==, arith, fault, Option-cases, inl,
  inr,
}
use lib_msvl.Node.Store.{Node, Store, M, load, load-some, load-none, bind-ok, bind-fault, ◌>>=◌}
use lib_msvl.Node.Children.{slots_of}
use lib_msvl.Node.Check.{at_end, prj_loop, prj_slots, prj_is_correct_and_exit}

-- The distances of the slots are multiples of 8, and that of the end is not.
at_end-false : (size i : ℕ) → at_end size i ≡ false
unfolding at_end
at_end-false size i = ne→== (8 * i) (8 * (size - 1) + 1) (λ e. omega (arith, e))

-- What begins with an access to a node is undefined behaviour if the rest is.
load-then-fault :
    {A : Type 0} (p : ℕ) (s : Store) (k : Node → M A)
    → ((n : Node) → k n s ≡ fault)
    → (load p >>= k) s ≡ fault
load-then-fault p s k h = elim (Option-cases (s p)) [
  | inl e ↦ bind-fault _ (load-none s p e)
  | inr (n, e) ↦ bind-ok _ (load-some s p e) ∙ h n
]

module _ (kill : ℕ → ℕ) where
  prj_loop-fault :
      (size i : ℕ) (ps : List ℕ) (exit_num : ℕ) (s : Store)
      → prj_loop kill size i ps exit_num s ≡ fault
  unfolding prj_loop
  prj_loop-fault size i [] exit_num s = rw (at_end-false size i) refl
  prj_loop-fault size i (p ∷ ps) exit_num s =
      rw (at_end-false size i) (load-then-fault p s _ (λ n. prj_loop-fault size (i + 1) ps _ s))

  prj_slots-fault : (this : ℕ) (ps : List ℕ) (s : Store) → prj_slots kill this ps s ≡ fault
  unfolding prj_slots
  prj_slots-fault this [] s = refl
  prj_slots-fault this (q ∷ []) s = refl
  prj_slots-fault this (q ∷ p ∷ ps) s = bind-fault _ (prj_loop-fault _ 1 (p ∷ ps) _ s)

  -- prj_node_is_correct_and_exit of any statement, whatever its children are, never returns: its
  -- loop runs past the last slot, since the address that it compares with is no slot's, or meets
  -- before that what is no node; with less than two children it starts at NULL. It is undefined
  -- behaviour.
  pub prj-NotOk : (this : ℕ) (s : Store) → prj_is_correct_and_exit kill this s ≡ fault
  unfolding prj_is_correct_and_exit
  prj-NotOk this s = load-then-fault this s _ (λ n. prj_slots-fault this (slots_of n.childs) s)
