-- ===== src/Predecessor/Returned.antt =====
-- Who has the turn when `excute` of function.cpp returns.
use lib_msvl.Base.{ℕ, some, ◌≡◌, refl, Run, ok, out_of_fuel}
use lib_msvl.Base.Stateful.{Keeps, returns, runs_out, Keeps-ok}
use lib_msvl.Predecessor.Objects.{Heap, Part, hands_back, finishes, runs_on, Program}
use lib_msvl.Predecessor.Excute.{give_part, excute}
use lib_msvl.Predecessor.KeepingExcute.{excute-Keeps}

-- The turn is the manager's.
abbrev pub ManagerTurn : Heap → Type 0
ManagerTurn h = h.turn ≡ h.manager

give_part-ManagerTurn : (prog : Program) (t : ℕ) (h : Heap) → Keeps ManagerTurn (give_part prog t h)
unfolding give_part
give_part-ManagerTurn prog t h = by_part (prog.part t (record h { turn = t }))
  where
    by_part :
        (x : Part)
        → Keeps ManagerTurn (elim x as (λ _. Run (Unit {0} × Heap)) [
          | hands_back h' ↦ ok (tt, record h' { turn = h'.manager })
          | finishes h' ↦ ok (tt, record h' { turn = h'.manager })
          | runs_on ↦ out_of_fuel
        ])
    by_part (hands_back h') = returns tt _ refl
    by_part (finishes h') = returns tt _ refl
    by_part runs_on = runs_out

-- `excute` of a node of any class, begun by the manager with the turn, has the turn at the manager
-- again when it returns, through the whole tree, where a new thread that comes to MyPauseThreadInit
-- leaves it there.
pub excute-ManagerTurn :
    (prog : Program) (fuel this : ℕ) (h h' : Heap)
    → ((t : ℕ) (g g' : Heap) → ManagerTurn g → prog.arrive t g ≡ some g' → ManagerTurn g')
    → ManagerTurn h
    → excute prog fuel this h ≡ ok (tt, h')
    → ManagerTurn h'
excute-ManagerTurn prog fuel this h h' arriving own e =
    Keeps-ok ManagerTurn (excute prog fuel this h) tt h'
      (excute-Keeps prog ManagerTurn
        (record {
          untouched = record { kept = λ g object map queue calls k. k };
          turns = λ t g k. give_part-ManagerTurn prog t g;
          arrives = λ t g g' k e'. arriving t g g' k e';
        })
        fuel this h own)
      e
