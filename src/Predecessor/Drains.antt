-- ===== src/Predecessor/Drains.antt =====
-- The loop of ManagerThread in function.cpp over what $$Push has collected, while each thread that
-- it serves is a leaf that in its turn only changes the program's variable that `stateNum` points
-- to.
use lib_msvl.Base.{
  ℕ, zero, suc, ◌+◌, ◌<◌, Bool-cases, inl, inr, Option, none, some, List, false, [], ◌∷◌, ◌≡◌, refl,
  sym, ap, subst, ◌∙◌, ◌==◌, eq→==, length, ok, arith,
}
use lib_msvl.Node.Store.{bind-ok}
use lib_msvl.Predecessor.Tree.{has_exited}
use lib_msvl.Predecessor.Objects.{Object, Pushed, Heap, hands_back, Program, H, load-some}
use lib_msvl.Predecessor.Excute.{is_changed, give_part, excute}
use lib_msvl.Predecessor.Parts.{give_part-hands_back, living, excute-give_part}
use lib_msvl.Predecessor.Managing.{
  popped, update_at, serve_found, serve_thread, excute_prj, serve_last, drain_prsnt,
}
use lib_msvl.Predecessor.Drained.{popped-some}
use lib_msvl.Predecessor.Returned.{ManagerTurn}

-- The thread runs and has a node: a leaf that has called MyPauseThreadInit and whose interval has
-- not ended.
abbrev pub IsLeafThread : Heap → ℕ → Type 0
IsLeafThread h id =
    (p : ℕ) × (x : Object) × (h.thread_id_to_node id ≡ some p)
    × (h.object p ≡ some (living x))
    × (has_exited h.exits (living x).node ≡ false)
    × (x.node.thread ≡ id)

abbrev pub AllLeafThreads : Heap → List Pushed → Type 0
AllLeafThreads h [] = Unit
AllLeafThreads h (e ∷ es) = IsLeafThread h e.thread_id × AllLeafThreads h es

-- What the threads of the elements make of a number, each once, the last element's thread first.
abbrev pub in_turn : (ℕ → ℕ → ℕ) → List Pushed → ℕ → ℕ
in_turn tally [] n = n
in_turn tally (e ∷ es) n = tally e.thread_id (in_turn tally es n)

-- What is left of a list whose last element is taken, and that element.
abbrev Parted : (ℕ → ℕ → ℕ) → Heap → List Pushed → List Pushed × Pushed → Type 0
Parted tally h es r =
    AllLeafThreads h r.0
    × IsLeafThread h r.1.thread_id
    × (length es ≡ length r.0 + 1)
    × ((n : ℕ) → in_turn tally es n ≡ in_turn tally r.0 (tally r.1.thread_id n))

popped-Parted :
    (tally : ℕ → ℕ → ℕ) (h : Heap) (x : Pushed) (es : List Pushed) (r : List Pushed × Pushed)
    → popped (x ∷ es) ≡ some r
    → AllLeafThreads h (x ∷ es)
    → Parted tally h (x ∷ es) r
popped-Parted tally h x [] r eq all =
    subst (Parted tally h (x ∷ [])) same (tt, all.0, refl, (λ n. refl))
  where
    same : ◌≡◌ {A = List Pushed × Pushed} ([], x) r
    same = cc
popped-Parted tally h x (y ∷ es) r eq all =
    let (q, last) = popped-some y es in
    let (fs, e, len, order) = popped-Parted tally h y es q last all.1 in
    let whole : some (x ∷ q.0, q.1) ≡ some r =
      sym (
        ap
          (λ o. elim o as (λ _. Option (List Pushed × Pushed)) [
            | none ↦ none
            | some s ↦ some (x ∷ s.0, s.1)
          ])
          last)
      ∙ eq in
    let same : ◌≡◌ {A = List Pushed × Pushed} (x ∷ q.0, q.1) r = cc in
    subst (Parted tally h (x ∷ y ∷ es)) same
      ((all.0, fs), e, omega (arith, len), (λ n. ap (tally x.thread_id) (order n)))

module _ (prog : Program) (tally : ℕ → ℕ → ℕ)
    (counts : (t : ℕ) (g : Heap)
      → prog.part t g ≡ hands_back (record g { state_num = tally t g.state_num })) where
  give_part-counts :
      (t : ℕ) (h : Heap)
      → ManagerTurn h
      → give_part prog t h ≡ ok (tt, record h { state_num = tally t h.state_num })
  give_part-counts t h own =
      give_part-hands_back prog t h _ (counts t (record h { turn = t }))
      ∙ ap (λ k. ok (tt, record h { turn = k; state_num = tally t h.state_num })) (sym own)

  update_at-living :
      (fuel p : ℕ) (x : Object) (h : Heap)
      → h.object p ≡ some (living x)
      → update_at prog fuel p h ≡ ok (tt, h)
  unfolding update_at is_changed
  update_at-living fuel p x h at_p = elim (Bool-cases (p == 0)) [
    | inl e ↦ rw e refl
    | inr e ↦ rw e (bind-ok _ (bind-ok _ (load-some h p at_p)))
  ]

  serve_thread-counts :
      (fuel id : ℕ) (h : Heap)
      → IsLeafThread h id
      → ManagerTurn h
      → h.path_false ≡ some false
      → h.changed_node ≡ 0
      → serve_thread prog (suc fuel) id h ≡ ok (tt, record h { state_num = tally id h.state_num })
  unfolding serve_thread serve_found
  serve_thread-counts fuel id h (p, x, found, at_p, runs, its) own path none_changed =
      let one_turn : excute prog (suc fuel) p h
          ≡ ok (tt, record h { state_num = tally id h.state_num }) =
        excute-give_part prog h p x at_p runs fuel path
        ∙ give_part-counts x.node.thread h own
        ∙ ap (λ t. ok (tt, record h { state_num = tally t h.state_num })) its in
      ap (λ o. serve_found prog (suc fuel) o h) found
      ∙ bind-ok _ one_turn
      ∙ bind-ok _
          (update_at-living (suc fuel) p x (record h { state_num = tally id h.state_num }) at_p)
      ∙ rw (eq→== h.changed_node 0 none_changed) refl

  excute_prj-none : (fuel : ℕ) (h : Heap) → h.prj_node ≡ 0 → excute_prj prog fuel h ≡ ok (tt, h)
  unfolding excute_prj
  excute_prj-none fuel h e = rw (eq→== h.prj_node 0 e) refl

  -- One round, where what follows it ends.
  serve_last-counts :
      (fuel : ℕ) (h : Heap) (es : List Pushed) (rest : H (Unit {0}))
      → h.prsnt ≡ es
      → AllLeafThreads h es
      → ManagerTurn h
      → h.path_false ≡ some false
      → h.changed_node ≡ 0
      → length es < suc fuel
      → ((fs : List Pushed) (n : ℕ)
          → AllLeafThreads h fs
          → length fs < fuel
          → rest (record h { prsnt = fs; state_num = n })
            ≡ ok (tt, record h { prsnt = []; state_num = in_turn tally fs n }))
      → serve_last prog fuel rest (popped es) h
        ≡ ok (tt, record h { prsnt = []; state_num = in_turn tally es h.state_num })
  unfolding serve_last
  serve_last-counts fuel h [] rest e all own path none_changed few goes_on =
      ap (λ x. ok (tt, record h { prsnt = x })) e
  serve_last-counts zero h (x ∷ es) rest e all own path none_changed few goes_on =
      absurd (omega arith)
  serve_last-counts (suc fuel) h (x ∷ es) rest e all own path none_changed few goes_on =
      let (r, last) = popped-some x es in
      let (kept, served, len, order) = popped-Parted tally h x es r last all in
      ap (λ o. serve_last prog (suc fuel) rest o h) last
      ∙ bind-ok _ (
          serve_thread-counts fuel r.1.thread_id (record h { prsnt = r.0 }) served own path
            none_changed)
      ∙ goes_on r.0 (tally r.1.thread_id h.state_num) kept (omega (arith, len))
      ∙ ap (λ n. ok (tt, record h { prsnt = []; state_num = n })) (sym (order h.state_num))

  -- The loop of ManagerThread over what $$Push has collected, with more fuel than it has elements,
  -- begun by the manager with the turn while the path is not false and no projection and no changed
  -- node waits: where every element's thread runs and has a node that is a leaf of length MORE and
  -- has called MyPauseThreadInit, and each thread in its turn changes the variable of the program
  -- that `stateNum` points to, in any way, and calls MyPauseThread, the loop ends; each element's
  -- thread has had one turn for it, the element that was collected last first; nothing is left and
  -- nothing else has changed.
  pub drain_prsnt-in_turn :
      (fuel : ℕ) (h : Heap)
      → AllLeafThreads h h.prsnt
      → ManagerTurn h
      → h.path_false ≡ some false
      → h.changed_node ≡ 0
      → h.prj_node ≡ 0
      → length h.prsnt < fuel
      → drain_prsnt prog fuel h
        ≡ ok (tt, record h { prsnt = []; state_num = in_turn tally h.prsnt h.state_num })
  unfolding drain_prsnt
  drain_prsnt-in_turn zero h all own path none_changed none_waits few = absurd (omega arith)
  drain_prsnt-in_turn (suc fuel) h all own path none_changed none_waits few =
      bind-ok _ (excute_prj-none fuel h none_waits)
      ∙ serve_last-counts fuel h h.prsnt (drain_prsnt prog fuel) refl all own path none_changed few
          (λ fs n kept fewer.
            drain_prsnt-in_turn fuel (record h { prsnt = fs; state_num = n }) kept own path
              none_changed none_waits fewer)
