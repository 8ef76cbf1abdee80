-- ===== src/Predecessor/Drained.antt =====
-- The loop of ManagerThread in function.cpp over what $$Push has collected.
use lib_msvl.Base.{
  ℕ, zero, suc, Bool, true, false, Option, none, some, List, [], ◌∷◌, ◌≡◌, refl, sym, ap, ◌∙◌, ◌==◌,
  ==→eq, if◌then◌else◌,
}
use lib_msvl.Base.Stateful.{Keeps, returns, runs_out, Keeps-then, Keeps-last, return, change, ◌>>◌}
use lib_msvl.Predecessor.Objects.{Pushed, Heap, Program, H}
use lib_msvl.Predecessor.Excute.{excute}
use lib_msvl.Predecessor.Managing.{popped, serve_thread, excute_prj, serve_last, drain_prsnt}

-- Nothing that was collected is left, and no projection waits for the next of its statements.
abbrev pub IsDrained : Heap → Type 0
IsDrained h = (h.prsnt ≡ []) × (h.prj_node ≡ 0)

-- A vector with an element has a last one.
pub popped-some :
    (x : Pushed) (es : List Pushed) → (r : List Pushed × Pushed) × (popped (x ∷ es) ≡ some r)
popped-some x [] = (([], x), refl)
popped-some x (y ∷ es) =
    let (r, e) = popped-some y es in
    (
      (x ∷ r.0, r.1),
      ap
          (λ o. elim o as (λ _. Option (List Pushed × Pushed)) [
            | none ↦ none
            | some q ↦ some (x ∷ q.0, q.1)
          ])
          e,
    )

popped-none : (es : List Pushed) → popped es ≡ none → es ≡ []
popped-none [] e = refl
popped-none (x ∷ es) e = absurd (cc (sym e ∙ (popped-some x es).1))

module _ (prog : Program) where
  excute_prj-done : (fuel : ℕ) (h : Heap) → Keeps (λ g. g.prj_node ≡ 0) (excute_prj prog fuel h)
  unfolding excute_prj
  excute_prj-done fuel h = by_test (h.prj_node == 0) refl
    where
      by_test :
          (b : Bool)
          → (h.prj_node == 0) ≡ b
          → Keeps
              (λ g. g.prj_node ≡ 0)
              ((if b
                  then return tt
                  else (do excute prog fuel h.prj_node; change (λ v. record v { prj_node = 0 })))
                h)
      by_test true e = returns tt h (==→eq h.prj_node 0 e)
      by_test false e =
          Keeps-last (λ g. g.prj_node ≡ 0) (excute prog fuel h.prj_node)
            (λ _. change (λ v. record v { prj_node = 0 })) h
            (λ a g. returns tt (record g { prj_node = 0 }) refl)

  serve_last-IsDrained :
      (fuel : ℕ) (rest : H (Unit {0})) (g : Heap)
      → g.prj_node ≡ 0
      → ((v : Heap) → Keeps IsDrained (rest v))
      → (o : Option (List Pushed × Pushed)) → popped g.prsnt ≡ o
      → Keeps IsDrained (serve_last prog fuel rest o g)
  unfolding serve_last
  serve_last-IsDrained fuel rest g none_waits goes_on none e =
      returns tt g (popped-none g.prsnt e, none_waits)
  serve_last-IsDrained fuel rest g none_waits goes_on (some (es, x)) e =
      Keeps-last IsDrained (serve_thread prog fuel x.thread_id) (λ _. rest)
        (record g { prsnt = es }) (λ a v. goes_on v)

  -- Whenever the loop comes to an end, everything that $$Push has collected has been taken out, by
  -- the program's threads during the loop too, and no projection waits for the next of its
  -- statements.
  pub drain_prsnt-IsDrained : (fuel : ℕ) (h : Heap) → Keeps IsDrained (drain_prsnt prog fuel h)
  unfolding drain_prsnt
  drain_prsnt-IsDrained zero h = runs_out
  drain_prsnt-IsDrained (suc fuel) h =
      Keeps-then (λ g. g.prj_node ≡ 0) IsDrained _ _ (excute_prj-done fuel h)
        (λ a g none_waits.
          serve_last-IsDrained fuel (drain_prsnt prog fuel) g none_waits
            (drain_prsnt-IsDrained fuel) (popped g.prsnt) refl)
