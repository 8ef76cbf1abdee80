-- ===== src/Predecessor/Settled.antt =====
-- The loop of ManagerThread in function.cpp over the states.
use lib_msvl.Base
use lib_msvl.Base.{
  ℕ, zero, suc, Bool, true, false, ◌||◌, Bool-cases, inl, inr, Option, none, some, List, [], ◌∷◌,
  ◌≡◌, refl, ap, ◌∙◌, ◌==◌, if◌then◌else◌, Run, ok, fault,
}
use lib_msvl.Base.Stateful.{
  Keeps, returns, faults, runs_out, Keeps-then, Keeps-last, return, change, ◌>>◌,
}
use lib_msvl.Node.Store.{leaf_type, same_type, len_code}
use lib_msvl.Predecessor.Objects.{Object, Heap, Program, H, load}
use lib_msvl.Predecessor.Keeping.{Untouched}
use lib_msvl.Predecessor.KeepingCheck.{is_correct-Keeps}
use lib_msvl.Predecessor.Excute.{excute}
use lib_msvl.Predecessor.Managing.{is_nil, excute_keep_childs, settle_state, put_state, states}
use lib_msvl.Predecessor.Drained.{IsDrained, drain_prsnt-IsDrained}

-- Nothing that was collected is left, no projection and no child of a KEEP waits.
abbrev pub IsSettled : Heap → Type 0
IsSettled h = IsDrained h × (h.keep_childs ≡ [])

-- The root is to become a LEAF, or its interval has ended.
abbrev pub HasEnded : Heap → Type 0
HasEnded h =
    (o : Object) × (h.object h.thread_root ≡ some o)
    × ((same_type o.node.new_type leaf_type || len_code o.node.len == 1) ≡ true)

IsDrained-Untouched : Untouched IsDrained
IsDrained-Untouched = record { kept = λ h object map queue calls d. d }

module _ (prog : Program) where
  kept-IsSettled :
      (fuel : ℕ) (v : Heap)
      → ((w : Heap) → Keeps IsSettled (settle_state prog fuel w))
      → IsDrained v
      → (ks : List ℕ) → v.keep_childs ≡ ks
      → Keeps IsSettled (
          (if is_nil ks
              then return tt
              else (do excute_keep_childs prog fuel; settle_state prog fuel))
            v)
  kept-IsSettled fuel v again still [] e = returns tt v (still, e)
  kept-IsSettled fuel v again still (k ∷ ks) e =
      Keeps-last IsSettled (excute_keep_childs prog fuel) (λ _. settle_state prog fuel) v
        (λ a w. again w)

  settle_state-IsSettled : (fuel : ℕ) (h : Heap) → Keeps IsSettled (settle_state prog fuel h)
  unfolding settle_state
  settle_state-IsSettled zero h = runs_out
  settle_state-IsSettled (suc fuel) h =
      Keeps-then IsDrained IsSettled _ _ (drain_prsnt-IsDrained prog fuel h) (λ a g drained.
        Keeps-then IsDrained IsSettled _ _
          (is_correct-Keeps IsDrained IsDrained-Untouched fuel g.thread_root g drained)
          (λ b v still.
            kept-IsSettled fuel v (settle_state-IsSettled fuel) still v.keep_childs refl))

  abbrev IsOver : Heap → Type 0
  IsOver g = IsSettled g × HasEnded g

  -- One state and those that follow it.
  abbrev next_states : ℕ → ℕ → H (Unit {0})
  next_states fuel root = do
    put_state prog
    excute prog fuel root
    change (λ h. record h { changed_node = 0; prj_node = 0 })
    settle_state prog fuel
    states prog fuel

  next_states-IsOver :
      (fuel root : ℕ) (h : Heap)
      → ((g : Heap) → IsSettled g → Keeps IsOver (states prog fuel g))
      → Keeps IsOver (next_states fuel root h)
  next_states-IsOver fuel root h again = Keeps-last IsOver (put_state prog) _ h (λ a g.
      Keeps-last IsOver (excute prog fuel root) _ g (λ b v.
        Keeps-then IsSettled IsOver _ _
          (settle_state-IsSettled fuel (record v { changed_node = 0; prj_node = 0 }))
          (λ c w settled. again w settled)))

  -- The loop of ManagerThread over the states, begun while nothing that was collected and no
  -- projection or child of a KEEP waits: when it comes to an end, the root is to become a LEAF or
  -- its interval has ended, and again nothing waits, whatever the threads of the program do in
  -- their turns.
  pub states-IsOver :
      (fuel : ℕ) (h : Heap)
      → IsSettled h
      → Keeps (λ g. IsSettled g × HasEnded g) (states prog fuel h)
  unfolding states load
  states-IsOver zero h settled = runs_out
  states-IsOver (suc fuel) h settled = by_root (states-IsOver fuel) (h.object h.thread_root) refl
    where
      by_test :
          ((g : Heap) → IsSettled g → Keeps IsOver (states prog fuel g))
          → (o : Object) → h.object h.thread_root ≡ some o
          → (b : Bool) → (same_type o.node.new_type leaf_type || len_code o.node.len == 1) ≡ b
          → Keeps IsOver ((if b then return tt else next_states fuel h.thread_root) h)
      by_test again o at_root true e = returns tt h (settled, (o, at_root, e))
      by_test again o at_root false e = next_states-IsOver fuel h.thread_root h again

      by_root :
          ((g : Heap) → IsSettled g → Keeps IsOver (states prog fuel g))
          → (x : Option Object) → h.object h.thread_root ≡ x
          → Keeps IsOver (
              Base.◌>>=◌
                (elim x as (λ _. Run (Object × Heap)) [ none ↦ fault | some o ↦ ok (o, h) ])
                (λ r.
                  (if same_type r.0.node.new_type leaf_type || len_code r.0.node.len == 1
                      then return tt
                      else next_states fuel h.thread_root)
                    r.1))
      by_root again none e = faults
      by_root again (some o) e = by_test again o e _ refl
