-- ===== src/Scheduler/Returns.antt =====
-- How the execution of a node and the manager's thread return.
use lib_msvl.Base.{
  ℕ, suc, Bool, true, false, ◌||◌, Option, none, some, [], ◌≡◌, ◌≢◌, refl, ◌⊎◌, inl, inr, sym, ap,
  subst, ◌∙◌, ◌==◌, eq→==, ne→==, if◌then◌else◌, length, Run, ok, fault, out_of_fuel,
}
use lib_msvl.Node.Store.{
  Childs, Node, leaf_type, empty, same_type, len_code, load-some, bind-ok, bind-fault, modify,
}
use lib_msvl.Node.Children.{slots_of}
use lib_msvl.Node.Check.{thread_exited, is_exit}
use lib_msvl.Node.Destroy.{destroy}
use lib_msvl.Node.Destroyed.{Freed, destroy-Freed}
use lib_msvl.Scheduler.World.{
  World, Slice, pauses, ends, keeps_on, Env, W, pure, ◌>>=◌, ◌>>◌, undefined, diverges, world,
  on_nodes, on_nodes-ok, on_nodes-load, asking, read_false, or_false,
}
use lib_msvl.Scheduler.Handshake.{
  wait_init, give_turn, handshake, leaf_execute, alw_execute, hand_over, append_childs, reset_len,
}
use lib_msvl.Scheduler.Execute.{execute}
use lib_msvl.Scheduler.Endless.{Never, Never-bind}
use lib_msvl.Scheduler.Drain.{show_state, settle, manage, await_turn, manager_thread}
use lib_msvl.Scheduler.Keeps.Chains.{Ends, Stable, Ends-ok, Ends-out_of_fuel}
use lib_msvl.Scheduler.Keeps.Execute.{execute-Ends}

-- The turn is the manager's.
unfoldable pub OwnTurn : World → Type 0
OwnTurn w = w.turn_id ≡ w.manager_id

OwnTurn-Stable :
    (env : Env)
    → ((t : ℕ) (w w' : World) → env.arrive t w ≡ some w' → OwnTurn w')
    → Stable env OwnTurn
unfolding OwnTurn give_turn
OwnTurn-Stable env arriving = record {
  nodes = λ w s p. p;
  queue = λ w q p. p;
  turn = λ t w p. by_slice w (env.slice t (record w { turn_id = t }));
  arrive = λ t w w' p e. arriving t w w' e;
}
  where
    by_slice :
        (w : World) (x : Slice)
        → Ends OwnTurn (elim x as (λ _. Run (Unit {0} × World)) [
          | pauses w' ↦ ok (tt, record w' { turn_id = w'.manager_id })
          | ends w' ↦ ok (tt, record w' { turn_id = w'.manager_id })
          | keeps_on ↦ out_of_fuel
        ])
    by_slice w (pauses w') = Ends-ok OwnTurn tt _ refl
    by_slice w (ends w') = Ends-ok OwnTurn tt _ refl
    by_slice w keeps_on = Ends-out_of_fuel OwnTurn _

-- node_execute of a node of any type, begun by the manager with the turn, has the turn at the
-- manager again when it returns, through the whole tree; where MyPauseThreadInit has handed it
-- there too.
pub execute-OwnTurn :
    (env : Env) (fuel this : ℕ) (w w' : World)
    → ((t : ℕ) (u u' : World) → env.arrive t u ≡ some u' → OwnTurn u')
    → OwnTurn w
    → execute env fuel this w ≡ ok (tt, w')
    → OwnTurn w'
unfolding Ends
execute-OwnTurn env fuel this w w' arriving own e =
    execute-Ends env OwnTurn (OwnTurn-Stable env arriving) fuel this w own tt w' e

trivial : {A : Type 0} (r : Run (A × World)) → Ends (λ _. Unit {0}) r
unfolding Ends
trivial r a w e = tt

-- What follows a piece never returns, so neither does the whole.
Never-after :
    {B : Type 0} (m : W (Unit {0})) (k : W B)
    → ((v : World) → Never (k v))
    → (w : World) → Never ((m >> k) w)
Never-after m k h w = Never-bind (λ _. Unit {0}) (m w) (λ x. k x.1) (trivial (m w)) (λ a v p. h v)

module _ (env : Env) (w : World) (this : ℕ) (n : Node) (at_this : w.nodes this ≡ some n)
    (lives : thread_exited w.exits n.thread ≡ false) where
  is_exit-lives : asking (λ kill. is_exit kill this) w ≡ ok (false, w)
  unfolding asking is_exit
  is_exit-lives =
      on_nodes-ok (is_exit w.exits this) w
        (bind-ok _ (load-some w.nodes this at_this) ∙ ap (λ b. ok (b, w.nodes)) lives)

  false-read :
      (f : Option Bool)
      → w.g_false ≡ f
      → or_false false w
        ≡ (elim f as (λ _. Run (Bool × World)) [ none ↦ fault | some b ↦ ok (b, w) ])
  unfolding or_false read_false
  false-read f e =
      ap (λ g. elim g as (λ _. Run (Bool × World)) [ none ↦ fault | some b ↦ ok (b, w) ]) e

  handshake-once :
      (w' : World)
      → n.is_init ≡ true
      → (env.slice n.thread (record w { turn_id = n.thread }) ≡ pauses w')
        ⊎ (env.slice n.thread (record w { turn_id = n.thread }) ≡ ends w')
      → handshake env this w ≡ ok (tt, record w' { turn_id = w'.manager_id })
  unfolding handshake wait_init give_turn
  handshake-once w' ready x =
      bind-ok _ (
        bind-ok _ (on_nodes-load w this at_this)
        ∙ ap
            (λ b.
              (if b then pure tt else λ v.
              elim (env.arrive n.thread v) as (λ _. Run (Unit {0} × World)) [
                | none ↦ diverges v
                | some u ↦ ok (tt, u)
              ])
                w)
            ready)
      ∙ bind-ok _ (on_nodes-load w this at_this)
      ∙ elim x [ inl e ↦ ap run_slice e | inr e ↦ ap run_slice e ]
    where
      run_slice : Slice → Run (Unit {0} × World)
      run_slice x = elim x [
        | pauses u ↦ ok (tt, record u { turn_id = u.manager_id })
        | ends u ↦ ok (tt, record u { turn_id = u.manager_id })
        | keeps_on ↦ diverges w
      ]

  -- leaf_node_execute of a leaf that lives, has length MORE and has been initialised: while g_false
  -- is NULL, it is undefined behaviour; on a path that is
  -- false it changes nothing; on one that is not it gives the thread one turn and returns when the
  -- thread pauses or ends, with what the thread has done and the turn at the manager.
  pub leaf_execute_lem :
      (f : Option Bool) (w' : World)
      → w.g_false ≡ f
      → len_code n.len ≡ 0
      → n.is_init ≡ true
      → (env.slice n.thread (record w { turn_id = n.thread }) ≡ pauses w')
        ⊎ (env.slice n.thread (record w { turn_id = n.thread }) ≡ ends w')
      → leaf_execute env this w ≡ elim f as (λ _. Run (Unit {0} × World)) [
        | none ↦ fault
        | some true ↦ ok (tt, w)
        | some false ↦ ok (tt, record w' { turn_id = w'.manager_id })
      ]
  unfolding leaf_execute
  leaf_execute_lem none w' on len ready x =
      bind-ok _ is_exit-lives ∙ bind-fault _ (false-read none on)
  leaf_execute_lem (some true) w' on len ready x =
      bind-ok _ is_exit-lives
      ∙ bind-ok _ (false-read (some true) on)
      ∙ bind-ok _ (on_nodes-load w this at_this)
  leaf_execute_lem (some false) w' on len ready x =
      bind-ok _ is_exit-lives
      ∙ bind-ok _ (false-read (some false) on)
      ∙ bind-ok _ (on_nodes-load w this at_this)
      ∙ ap (λ b. (if b then handshake env this else pure tt) w) (eq→== (len_code n.len) 0 len)
      ∙ handshake-once w' ready x

  -- alw_node_execute of a node that lives and has been initialised, on a path that is not false,
  -- never returns if the node has an array of children after its thread's turn, be it empty:
  -- node_destroy is given that array as a node.
  pub alw_execute-Never :
      (depth : ℕ) (w' : World) (n' : Node) (c : Childs)
      → w.g_false ≡ some false
      → n.is_init ≡ true
      → (env.slice n.thread (record w { turn_id = n.thread }) ≡ pauses w')
        ⊎ (env.slice n.thread (record w { turn_id = n.thread }) ≡ ends w')
      → w'.nodes this ≡ some n'
      → n'.childs ≡ some c
      → (r : Unit {0} × World) → alw_execute env depth this w ≢ ok r
  unfolding alw_execute Never
  alw_execute-Never depth w' n' c on ready x at_this' has =
      subst Never
        (sym (
          bind-ok _ is_exit-lives
          ∙ bind-ok _ (false-read (some false) on)
          ∙ bind-ok _ (handshake-once w' ready x)
          ∙ bind-ok _ (on_nodes-load (record w' { turn_id = w'.manager_id }) this at_this')))
        (Never-after (hand_over env (slots_of n'.childs) n'.father)
          (append_childs env (slots_of n'.childs) n'.father
            >> ((if length (slots_of n'.childs) == 0
                  then pure tt
                  else reset_len env depth n'.father)
                >> end_of n'.childs))
          (λ w1.
            Never-after (append_childs env (slots_of n'.childs) n'.father)
              ((if length (slots_of n'.childs) == 0 then pure tt else reset_len env depth n'.father)
                >> end_of n'.childs)
              (λ w2.
                Never-after
                  (if length (slots_of n'.childs) == 0
                    then pure tt
                    else reset_len env depth n'.father)
                  (end_of n'.childs) (by_array n'.childs has) w2)
              w1)
          (record w' { turn_id = w'.manager_id }))
    where
      end_of : Option Childs → W (Unit {0})
      end_of o = elim o as (λ _. W (Unit {0})) [
        | none ↦ on_nodes (modify (λ m. record m { childs = none }) this)
        | some _ ↦ undefined
      ]

      by_array : (o : Option Childs) → o ≡ some c → (v : World) → Never (end_of o v)
      by_array none e v = absurd cc
      by_array (some d) e v = λ r q. cc

-- ManagerThread with the turn, whose root has no child and has become a LEAF or has length EMPTY,
-- ends at once: the root is destroyed and g_thread_root NULL.
pub manager_thread-ends :
    (env : Env) (fuel : ℕ) (w : World) (n : Node)
    → env.erases ≡ true
    → w.turn_id ≡ w.manager_id
    → w.thread_root ≢ 0
    → w.nodes w.thread_root ≡ some n
    → same_type n.new_type leaf_type || len_code n.len == len_code empty ≡ true
    → slots_of n.childs ≡ []
    → (w' : World) × (manager_thread env (suc fuel) w ≡ ok (tt, w'))
      × (w'.thread_root ≡ 0)
      × (w'.nodes w.thread_root ≡ none)
unfolding manager_thread manage await_turn Freed
manager_thread-ends env fuel w n erases own root at_root finished childless =
    let (s', run, gone, same) =
      (destroy-Freed fuel w.thread_root w.nodes n true root at_root childless).1 in
    (
      record w { nodes = s'; thread_root = 0 },
      bind-ok _ (
            ap
              (λ b. if b then ok (tt, w) else elim (env.await w) as (λ _. Run (Unit {0} × World)) [
                | none ↦ out_of_fuel
                | some w' ↦ ok (tt, w')
              ])
              (eq→== w.turn_id w.manager_id own))
          ∙ ap
              (λ b.
                (if b then pure tt else (do
                  manage env (suc fuel)
                  v ← world
                  on_nodes (destroy false env.erases (suc fuel) v.thread_root)
                  (λ u. ok (tt, record u { thread_root = 0 }))))
                  w)
              (ne→== w.thread_root 0 root)
          ∙ bind-ok _ (
              bind-ok _ (on_nodes-load w w.thread_root at_root)
              ∙ ap
                  (λ b.
                    (if b then pure tt else (do
                      show_state env
                      execute env fuel w.thread_root
                      (λ v. ok (tt, record v { changed_node = 0; prj_node = 0 }))
                      settle env fuel
                      manage env fuel))
                      w)
                  finished)
          ∙ bind-ok _ (
              on_nodes-ok (destroy false env.erases (suc fuel) w.thread_root) w
                (ap (λ b. destroy false b (suc fuel) w.thread_root w.nodes) erases ∙ run)),
      refl,
      gone,
    )
