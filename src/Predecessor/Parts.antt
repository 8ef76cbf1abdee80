-- ===== src/Predecessor/Parts.antt =====
-- Single steps of `excute` of function.cpp that its theorems share.
use lib_msvl.Base.{
  ◌∙◌, suc, ℕ, Bool, true, false, ◌||◌, none, some, ◌≡◌, refl, ap, Run, ok, fault, out_of_fuel,
}
use lib_msvl.Node.Store.{leaf_type, more, bind-ok}
use lib_msvl.Predecessor.Tree.{has_exited}
use lib_msvl.Predecessor.OnHeap.{exited_at}
use lib_msvl.Predecessor.Objects.{
  Object, load-some, Heap, hands_back, finishes, runs_on, Program, read_false, or_false,
}
use lib_msvl.Predecessor.Excute.{give_part, leaf_excute, switch_to, wait_is_init, excute_by, excute}

-- A thread that calls MyPauseThread in its turn leaves the state that it has made, with the turn at
-- the manager.
pub give_part-hands_back :
    (prog : Program) (t : ℕ) (h h' : Heap)
    → prog.part t (record h { turn = t }) ≡ hands_back h'
    → give_part prog t h ≡ ok (tt, record h' { turn = h'.manager })
unfolding give_part
give_part-hands_back prog t h h' e =
    ap
      (λ x. elim x as (λ _. Run (Unit {0} × Heap)) [
        | hands_back g ↦ ok (tt, record g { turn = g.manager })
        | finishes g ↦ ok (tt, record g { turn = g.manager })
        | runs_on ↦ out_of_fuel
      ])
      e

pub or_false-read : (h : Heap) (a b : Bool) → h.path_false ≡ some b → or_false a h ≡ ok (a || b, h)
unfolding or_false read_false
or_false-read h true b e = refl
or_false-read h false b e =
    ap (λ x. elim x as (λ _. Run (Bool × Heap)) [ none ↦ fault | some c ↦ ok (c, h) ]) e

-- A leaf that has called MyPauseThreadInit and whose interval has not ended.
abbrev pub living : Object → Object
living x = record x {
  node = record x.node { type = leaf_type; new_type = leaf_type; len = more; is_init = true };
}

-- `excute` of such a leaf, whose thread runs, gives it one turn.
pub excute-give_part :
    (prog : Program) (h : Heap) (p : ℕ) (x : Object)
    → h.object p ≡ some (living x)
    → has_exited h.exits (living x).node ≡ false
    → (fuel : ℕ) → h.path_false ≡ some false
    → excute prog (suc fuel) p h ≡ give_part prog x.node.thread h
unfolding excute excute_by leaf_excute exited_at switch_to wait_is_init
excute-give_part prog h p x at_p runs fuel path =
    bind-ok _ (load-some h p at_p)
    ∙ bind-ok _ (bind-ok _ (load-some h p at_p) ∙ ap (λ b. ok (b, h)) runs)
    ∙ bind-ok _ (or_false-read h false false path)
    ∙ bind-ok _ (load-some h p at_p)
    ∙ bind-ok _ (bind-ok _ (load-some h p at_p))
    ∙ bind-ok _ (load-some h p at_p)
