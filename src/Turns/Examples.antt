-- ===== src/Turns/Examples.antt =====
-- The turns of two threads, 1 and 2, under the manager 9.
use lib_msvl.Base.{ℕ, true, false, ◌≡◌, ◌≢◌, ◌≤◌, ◌<◌, ◌⊎◌, refl, ◌==◌, if◌then◌else◌, arith}
use lib_msvl.Turns.Protocol.{
  Place, absent, fresh, paused, running, working, waiting, System, move, resume, pause, give, Start,
  Reach, here, next,
}
use lib_msvl.Turns.Exclusion.{mutual_exclusion}
use lib_msvl.Turns.Progress.{Creates, distance, early_turn, turn_returns, turn_nearer}

abbrev places : ℕ → Place
places t = if t == 1 then paused else absent

abbrev at_start : System
at_start = record { manager_id = 9; turn_id = 9; manager = working; place = places }

at_start-Start : Start at_start
at_start-Start = record { at_work = refl; own_turn = refl; quiet = quiet; apart = refl }
  where
    quiet : (t : ℕ) → places t ≢ running
    quiet t = ground arith

abbrev one_given : System
one_given = record { manager_id = 9; turn_id = 1; manager = waiting 1; place = places }

abbrev one_runs : System
one_runs = record one_given { place = move 1 running places }

one_runs-Reach : Reach true at_start one_runs
one_runs-Reach = next (next here (give 1 refl (λ e. omega arith) refl)) (resume 1 refl refl)

mutual_exclusion_example : ◌≡◌ {A = ℕ} 1 1 × (one_runs.manager ≢ working) × (one_runs.turn_id ≡ 1)
mutual_exclusion_example = mutual_exclusion at_start-Start one_runs-Reach 1 1 refl refl

turn_returns_example : (t' : System) × Reach true one_runs t' × (t'.manager ≡ working)
turn_returns_example = turn_returns at_start-Start one_runs-Reach 1 refl

abbrev one_paused : System
one_paused = record one_runs { turn_id = 9; place = move 1 paused (move 1 running places) }

turn_nearer_example :
    (distance one_runs ≤ 3)
    × ((distance one_paused < distance one_runs) ⊎ Creates one_runs one_paused)
turn_nearer_example = turn_nearer at_start-Start one_runs-Reach 1 refl (pause 1 refl)

abbrev one_creates : System
one_creates = record one_runs { place = move 2 fresh (move 1 running places) }

early_turn_example :
    (s' : System) × Reach false one_creates s' × (s'.manager ≡ working) × (s'.place 1 ≡ running)
early_turn_example = early_turn one_creates 1 2 refl refl refl
