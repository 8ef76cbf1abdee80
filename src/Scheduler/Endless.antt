-- ===== src/Scheduler/Endless.antt =====
-- ManagerThread of msvl.c does not end once something has been pushed.
use lib_msvl.Base.{
  ℕ, zero, suc, ◌+◌, Bool, true, false, not, ◌||◌, Option, none, some, List, [], ◌∷◌, ◌≡◌, ◌≢◌,
  refl, eq→==, ne→==, ◌⊎◌, inl, inr, sym, ap, subst, ◌∙◌, ◌==◌, if◌then◌else◌, length, Run, ok,
  fault, exit, out_of_fuel,
}
use lib_msvl.Base
use mathlib.Core.Option
use lib_msvl.Node.Store.{Node, same_type, leaf_type, empty, len_code, bind-ok}
use lib_msvl.Manager.Push.{Element}
use lib_msvl.Scheduler.World.{
  World, Slice, pauses, ends, keeps_on, Env, undefined, W, pure, ◌>>=◌, ◌>>◌, world, on_nodes,
  on_nodes-load,
}
use lib_msvl.Node.Destroy.{destroy}
use lib_msvl.Scheduler.Handshake.{give_turn}
use lib_msvl.Scheduler.Execute.{execute}
use lib_msvl.Scheduler.Drain.{
  elements, back_of, destroyed, show_state, serve, drain, settle, manage, await_turn,
  manager_thread,
}
use lib_msvl.Scheduler.Keeps.Chains.{
  Ends, Stable, Ends-ok, Ends-exit, Ends-out_of_fuel, Ends-bind, Ends-if,
}
use lib_msvl.Scheduler.Keeps.Execute.{execute-Ends}
use lib_msvl.Scheduler.Keeps.Update.{update_node-Ends}

-- g_$$prsnt has an element, destroyed or not.
unfoldable pub Pushed : World → Type 0
Pushed w = elements w.prsnt ≢ []

-- The threads only push onto g_$$prsnt.
pub record OnlyPush (env : Env) : Type 0 where
  pub in_turn :
      (t : ℕ) (w w' : World)
      → (env.slice t w ≡ pauses w') ⊎ (env.slice t w ≡ ends w')
      → Pushed w
      → Pushed w'
  pub in_front : (t : ℕ) (w w' : World) → env.arrive t w ≡ some w' → Pushed w → Pushed w'

Pushed-Stable : (env : Env) → OnlyPush env → Stable env Pushed
unfolding Pushed give_turn
Pushed-Stable env only = record {
  nodes = λ w s p. p;
  queue = λ w q p. p;
  turn = λ t w p. by_slice t w p (env.slice t (record w { turn_id = t })) refl;
  arrive = λ t w w' p e. only.in_front t w w' e p;
}
  where
    by_slice :
        (t : ℕ) (w : World)
        → Pushed w
        → (x : Slice) → env.slice t (record w { turn_id = t }) ≡ x
        → Ends Pushed (elim x as (λ _. Run (Unit {0} × World)) [
          | pauses w' ↦ ok (tt, record w' { turn_id = w'.manager_id })
          | ends w' ↦ ok (tt, record w' { turn_id = w'.manager_id })
          | keeps_on ↦ out_of_fuel
        ])
    by_slice t w p (pauses w') e =
        Ends-ok Pushed tt _ (only.in_turn t (record w { turn_id = t }) w' (inl e) p)
    by_slice t w p (ends w') e =
        Ends-ok Pushed tt _ (only.in_turn t (record w { turn_id = t }) w' (inr e) p)
    by_slice t w p keeps_on e = Ends-out_of_fuel Pushed _

-- no value comes out
unfoldable pub Never : {A : Type 0} → Run A → Type 0
Never {A = A} r = (x : A) → r ≢ ok x

pub Never-bind :
    (P : World → Type 0) {A B : Type 0} (r : Run (A × World)) (k : A × World → Run B)
    → Ends P r
    → ((a : A) (w : World) → P w → Never (k (a, w)))
    → Never (Base.◌>>=◌ r k)
unfolding Ends Never
Never-bind P (ok (a, w)) k h f x e = f a w (h a w refl) x e
Never-bind P fault k h f x e = cc
Never-bind P (exit n) k h f x e = cc
Never-bind P out_of_fuel k h f x e = cc

pub Never-first : {A B : Type 0} (r : Run A) (k : A → Run B) → Never r → Never (Base.◌>>=◌ r k)
unfolding Never
Never-first (ok a) k h x e = h a refl
Never-first fault k h x e = cc
Never-first (exit n) k h x e = cc
Never-first out_of_fuel k h x e = cc

module _ (env : Env) (only : OnlyPush env) where
  stable : Stable env Pushed
  stable = Pushed-Stable env only

  serve-Ends : (fuel id : ℕ) (w : World) → Pushed w → Ends Pushed (serve env fuel id w)
  unfolding serve Pushed
  serve-Ends fuel id w p = Ends-if Pushed (env.find w id == 0) _ _ w (Ends-exit Pushed _ 134) (
      Ends-bind Pushed _ _ (execute-Ends env Pushed stable fuel (env.find w id) w p) λ a w1 p1.
        Ends-bind Pushed _ _ (update_node-Ends env Pushed stable fuel (env.find w id) w1 p1)
          λ b w2 p2. Ends-if Pushed (w2.changed_node == 0) _ _ w2 (Ends-ok Pushed tt w2 p2) (
            Ends-bind Pushed _ _ (update_node-Ends env Pushed stable fuel w2.changed_node w2 p2)
              λ c w3 p3. Ends-ok Pushed tt _ p3))

  destroyed-Pushed :
      (i : ℕ) (o : Option (List (Option Element)))
      → elements o ≢ []
      → elements (Option.map (destroyed env i) o) ≢ []
  destroyed-Pushed i none h = h
  destroyed-Pushed i (some []) h = h
  destroyed-Pushed zero (some (e ∷ es)) h = λ q. cc
  destroyed-Pushed (suc i) (some (e ∷ es)) h = λ q. cc

  back_of-nonempty : (es : List (Option Element)) → es ≢ [] → back_of es ≢ none
  back_of-nonempty [] h q = h refl
  back_of-nonempty (e ∷ []) h q = cc
  back_of-nonempty (e ∷ d ∷ es) h q =
      by_rest (back_of (d ∷ es)) (back_of-nonempty (d ∷ es) (λ q'. cc)) q
    where
      by_rest :
          (o : Option (List (Option Element) × Option Element))
          → o ≢ none
          → elim o as (λ _. Option (List (Option Element) × Option Element)) [
            | none ↦ none
            | some r ↦ some (e ∷ r.0, r.1)
          ]
            ≢ none
      by_rest none n q = n refl
      by_rest (some r) n q = cc

  by_back :
      (fuel : ℕ)
      → ((v : World) → Pushed v → Never (drain env fuel v))
      → (w : World) → Pushed w
      → (o : Option (List (Option Element) × Option Element)) → o ≢ none
      → Never (
          (elim o as (λ _. W (Unit {0})) [
            | none ↦ pure tt
            | some (es, none) ↦ undefined
            | some (es, some e) ↦ (do
              serve env fuel e.thread_id
              (λ v. ok (tt, record v { prsnt = Option.map (destroyed env (length es)) v.prsnt }))
              drain env fuel)
          ])
            w)
  unfolding Pushed Never
  by_back fuel ih w p none n = absurd (n refl)
  by_back fuel ih w p (some (es, none)) n = λ x e. cc
  by_back fuel ih w p (some (es, some e)) n =
      Never-bind Pushed _ _ (serve-Ends fuel e.thread_id w p)
        λ a w1 p1. ih _ (destroyed-Pushed (length es) w1.prsnt p1)

  drain-Never : (fuel : ℕ) (w : World) → Pushed w → Never (drain env fuel w)
  unfolding drain Pushed Never
  drain-Never zero w p = λ x e. cc
  drain-Never (suc fuel) w p =
      Never-bind Pushed _ _
        (Ends-if Pushed (w.prj_node == 0) _ _ w (Ends-ok Pushed tt w p) (
          Ends-bind Pushed _ _ (execute-Ends env Pushed stable fuel w.prj_node w p)
            λ a w1 p1. Ends-ok Pushed tt _ p1))
        λ a w' p'.
          by_back fuel (drain-Never fuel) w' p' (back_of (elements w'.prsnt))
            (back_of-nonempty (elements w'.prsnt) p')

  settle-Never : (fuel : ℕ) (w : World) → Pushed w → Never (settle env fuel w)
  unfolding settle Never
  settle-Never zero w p = λ x e. cc
  settle-Never (suc fuel) w p = Never-first _ _ (drain-Never fuel w p)

  show_state-Ends : (w : World) → Pushed w → Ends Pushed (show_state env w)
  unfolding show_state Pushed
  show_state-Ends w p = by_answer w.outputs (env.is_output w)
    where
      by_answer :
          (o b : Bool)
          → Ends Pushed (
              if o
              then (if b then ok (tt, record w { state_num = w.state_num + 1 }) else exit 0)
              else ok (tt, w))
      by_answer true true = Ends-ok Pushed tt _ p
      by_answer true false = Ends-exit Pushed _ 0
      by_answer false b = Ends-ok Pushed tt w p

  finished_root : Node → Bool
  finished_root n = same_type n.new_type leaf_type || len_code n.len == len_code empty

  manage-Never :
      (fuel : ℕ) (w : World) (n : Node)
      → Pushed w
      → w.nodes w.thread_root ≡ some n
      → finished_root n ≡ false
      → Never (manage env fuel w)
  unfolding manage Pushed Never finished_root
  manage-Never zero w n p at_root unfinished = λ x e. cc
  manage-Never (suc fuel) w n p at_root unfinished =
      subst Never
        (sym (
          bind-ok _ (on_nodes-load w w.thread_root at_root)
          ∙ ap
              (λ b.
                (if b then pure tt else (do
                  show_state env
                  execute env fuel w.thread_root
                  (λ v. ok (tt, record v { changed_node = 0; prj_node = 0 }))
                  settle env fuel
                  manage env fuel))
                  w)
              unfinished))
        (Never-bind Pushed _ _ (show_state-Ends w p) λ a w1 p1.
          Never-bind Pushed _ _ (execute-Ends env Pushed stable fuel w.thread_root w1 p1)
            λ b w2 p2. Never-first _ _ (settle-Never fuel _ p2))

-- Once g_$$prsnt has an element, and as long as the program only pushes onto it, ManagerThread with
-- the turn and an unfinished root never returns: an element that is extracted stays in the array.
pub manager_thread-Never :
    (env : Env) (fuel : ℕ) (w : World) (n : Node)
    → OnlyPush env
    → Pushed w
    → w.turn_id ≡ w.manager_id
    → w.thread_root ≢ 0
    → w.nodes w.thread_root ≡ some n
    → same_type n.new_type leaf_type || len_code n.len == len_code empty ≡ false
    → (r : Unit {0} × World) → manager_thread env fuel w ≢ ok r
unfolding manager_thread await_turn Never finished_root
manager_thread-Never env fuel w n only p own root at_root unfinished =
    subst Never
      (sym (
        bind-ok _ (
          ap
            (λ b. if b then ok (tt, w) else elim (env.await w) as (λ _. Run (Unit {0} × World)) [
              | none ↦ out_of_fuel
              | some w' ↦ ok (tt, w')
            ])
            (eq→== w.turn_id w.manager_id own))
        ∙ ap
            (λ b.
              (if b then pure tt else (do
                manage env fuel
                v ← world
                on_nodes (destroy false env.erases fuel v.thread_root)
                (λ u. ok (tt, record u { thread_root = 0 }))))
                w)
            (ne→== w.thread_root 0 root)))
      (Never-first _ _ (manage-Never env only fuel w n p at_root unfinished))
