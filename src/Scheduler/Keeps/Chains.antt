-- ===== src/Scheduler/Keeps/Chains.antt =====
-- What the pieces of a run of the scheduling thread keep: the globals that nodes and turns leave
-- alone.
use lib_msvl.Base.{
  ℕ, zero, suc, ◌+◌, Bool, true, false, not, Option, none, some, List, [], ◌∷◌, ◌++◌, ◌≡◌, refl,
  sym, ap, ◌∙◌, subst, ◌==◌, leb, if◌then◌else◌, length, get_elem?, Run, ok, fault, exit,
  out_of_fuel,
}
use lib_msvl.Base
use lib_msvl.Node.Store.{Store, M}
use lib_msvl.Scheduler.World.{
  World, Env, W, pure, undefined, on_nodes, asking, read_false, or_false,
}
use lib_msvl.Scheduler.Handshake.{give_turn}
use lib_msvl.Scheduler.Execute.{slot_of}

-- What a run that has returned has come to.
unfoldable pub Ends : (World → Type 0) → {A : Type 0} → Run (A × World) → Type 0
Ends P {A} r = (a : A) (w' : World) → r ≡ ok (a, w') → P w'

module _ (P : World → Type 0) where
  pub Ends-ok : {A : Type 0} (a : A) (w : World) → P w → Ends P (ok (a, w))
  unfolding Ends
  Ends-ok a w h a' w' e = subst (λ r. P (world_of w r)) e h
    where
      world_of : {A : Type 0} → World → Run (A × World) → World
      world_of d (ok x) = x.1
      world_of d fault = d
      world_of d (exit n) = d
      world_of d out_of_fuel = d

  pub Ends-fault : (A : Type 0) → Ends P {A = A} fault
  unfolding Ends
  Ends-fault A a w e = absurd cc

  pub Ends-exit : (A : Type 0) (n : ℕ) → Ends P {A = A} (exit n)
  unfolding Ends
  Ends-exit A n a w e = absurd cc

  pub Ends-out_of_fuel : (A : Type 0) → Ends P {A = A} out_of_fuel
  unfolding Ends
  Ends-out_of_fuel A a w e = absurd cc

  -- a chain
  pub Ends-bind :
      {A B : Type 0} (r : Run (A × World)) (k : A × World → Run (B × World))
      → Ends P r
      → ((a : A) (w : World) → P w → Ends P (k (a, w)))
      → Ends P (Base.◌>>=◌ r k)
  unfolding Ends
  Ends-bind (ok (a, w)) k h f b w' e = f a w (h a w refl) b w' e
  Ends-bind fault k h f b w' e = absurd cc
  Ends-bind (exit n) k h f b w' e = absurd cc
  Ends-bind out_of_fuel k h f b w' e = absurd cc

  -- a test
  pub Ends-if :
      {A : Type 0} (b : Bool) (m k : W A) (w : World)
      → Ends P (m w)
      → Ends P (k w)
      → Ends P ((if b then m else k) w)
  Ends-if true m k w h h' = h
  Ends-if false m k w h h' = h'

  pub Ends-read_false : (w : World) → P w → Ends P (read_false w)
  unfolding read_false
  Ends-read_false w p = by_flag w.g_false
    where
      by_flag :
          (f : Option Bool)
          → Ends P (elim f as (λ _. Run (Bool × World)) [ none ↦ fault | some b ↦ ok (b, w) ])
      by_flag none = Ends-fault _
      by_flag (some b) = Ends-ok b w p

  pub Ends-or_false : (b : Bool) (w : World) → P w → Ends P (or_false b w)
  unfolding or_false
  Ends-or_false true w p = Ends-ok true w p
  Ends-or_false false w p = Ends-read_false w p

  pub Ends-slot_of : (ps : List ℕ) (i : ℕ) (w : World) → P w → Ends P (slot_of ps i w)
  Ends-slot_of ps i w p = by_slot (get_elem? ps i)
    where
      by_slot :
          (o : Option ℕ) → Ends P ((elim o as (λ _. W ℕ) [ none ↦ undefined | some q ↦ pure q ]) w)
      by_slot none = Ends-fault _
      by_slot (some q) = Ends-ok q w p

-- What a property needs, to be kept: changes of the nodes and of the queue of a KEEP do not touch
-- it, and neither do the threads in their turns and before them.
pub record Stable (env : Env) (P : World → Type 0) : Type 0 where
  pub nodes : (w : World) (s : Store) → P w → P (record w { nodes = s })
  pub queue : (w : World) (q : Option (List ℕ)) → P w → P (record w { keep_childs = q })
  pub turn : (t : ℕ) (w : World) → P w → Ends P (give_turn env t w)
  pub arrive : (t : ℕ) (w w' : World) → P w → env.arrive t w ≡ some w' → P w'

module _ (env : Env) (P : World → Type 0) (st : Stable env P) where
  pub on_node : {A : Type 0} (m : M A) (w : World) → P w → Ends P (on_nodes m w)
  unfolding on_nodes
  on_node {A = A} m w p = by_run (m w.nodes)
    where
      by_run :
          (r : Run (A × Store)) → Ends P (Base.◌>>=◌ r (λ x. ok (x.0, record w { nodes = x.1 })))
      by_run (ok (a, s)) = Ends-ok P a (record w { nodes = s }) (st.nodes w s p)
      by_run fault = Ends-fault P _
      by_run (exit n) = Ends-exit P _ n
      by_run out_of_fuel = Ends-out_of_fuel P _

  pub ask : {A : Type 0} (f : (ℕ → ℕ) → M A) (w : World) → P w → Ends P (asking f w)
  unfolding asking
  ask f w p = on_node (f w.exits) w p

  -- `on_nodes` and then the rest
  pub then_node :
      {A B : Type 0} (m : M A) (w : World) (k : A × World → Run (B × World))
      → P w
      → ((a : A) (v : World) → P v → Ends P (k (a, v)))
      → Ends P (Base.◌>>=◌ (on_nodes m w) k)
  then_node m w k p h = Ends-bind P (on_nodes m w) k (on_node m w p) h
