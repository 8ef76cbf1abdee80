-- ===== src/Predecessor/RunExamples.antt =====
-- A statement of function.cpp on the threads 1, 2 and 3, run under the manager 9.
use lib_msvl.Base.{
  ◌+◌, ◌*◌, subst, ℕ, zero, suc, ◌≡◌, ◌≢◌, refl, true, false, Option, none, some, List, [], ◌∷◌,
  ◌++◌, ◌==◌, if◌then◌else◌, ok, arith,
}
use lib_msvl.Base.Stateful.{Keeps}
use lib_msvl.Node.Store.{NodeType, more, and_type, pal_type, keep_type, leaf_type}
use lib_msvl.Turns.Protocol.{Place, absent, paused, running, working, waiting, System, move, Start}
use lib_msvl.Predecessor.Protocol.{Turns, begin, then_turn, excute_thread, take_turn}
use lib_msvl.Predecessor.Alone.{Turns-exclusive}
use lib_msvl.Predecessor.Tree.{ThreadNode, has_exited}
use lib_msvl.Predecessor.Objects.{
  Object, Pushed, Heap, hands_back, Program, load, or_false, read_false,
}
use lib_msvl.Predecessor.OnHeap.{exited_at}
use lib_msvl.Predecessor.Excute.{excute, excute_by, leaf_excute, switch_to, wait_is_init, give_part}
use lib_msvl.Predecessor.Managing.{drain_prsnt, states}
use lib_msvl.Predecessor.Returned.{ManagerTurn, excute-ManagerTurn}
use lib_msvl.Predecessor.Drained.{IsDrained, drain_prsnt-IsDrained}
use lib_msvl.Predecessor.Drains.{drain_prsnt-in_turn}
use lib_msvl.Scheduler.Startup.{Threads}
use lib_msvl.Predecessor.Startup.{my_create_thread}
use lib_msvl.Predecessor.Insertion.{insert_new_childs, insert_new_childs-placed}
use lib_msvl.Predecessor.EachChild.{looked_at, excute-each_child}
use lib_msvl.Predecessor.Settled.{IsSettled, HasEnded, states-IsOver}
use lib_msvl.Predecessor.Created.{IsCreated, my_create_thread-IsCreated}

abbrev places : ℕ → Place
places t = if t == 1 then paused else absent

abbrev at_start : System
at_start = record { manager_id = 9; turn_id = 9; manager = working; place = places }

at_start-Start : Start at_start
at_start-Start = record { at_work = refl; own_turn = refl; quiet = quiet; apart = refl }
  where
    quiet : (t : ℕ) → places t ≢ running
    quiet t = ground arith

abbrev one_given : System
one_given = record { manager_id = 9; turn_id = 1; manager = waiting 1; place = places }

abbrev one_runs : System
one_runs = record one_given { place = move 1 running places }

one_runs-Turns : Turns at_start one_runs
one_runs-Turns =
    then_turn (then_turn begin (excute_thread 1 refl (λ e. omega arith) refl))
      (take_turn 1 refl refl)

Turns-exclusive_example : ◌≡◌ {A = ℕ} 1 1 × (one_runs.manager ≢ working) × (one_runs.turn_id ≡ 1)
Turns-exclusive_example = Turns-exclusive at_start-Start one_runs-Turns 1 1 refl refl

abbrev on_thread : ℕ → NodeType → NodeType → ThreadNode
on_thread thread type new_type = record {
  thread = thread;
  type = type;
  new_type = new_type;
  len = more;
  has_empty = false;
  mutex = 5;
  cond = 6;
  is_init = true;
}

abbrev an_object : ThreadNode → ℕ → List ℕ → Object
an_object node father childs = record {
  node = node;
  father = father;
  childs = childs;
  ext_Q = false;
  has_ext_Q = false;
}

-- an AND at 1, which is to become a leaf, and its children, the leaves at 2 and 3
abbrev and_one : Object
and_one = an_object (on_thread 1 and_type leaf_type) 0 (2 ∷ 3 ∷ [])

abbrev objects : ℕ → Option Object
objects zero = none
objects (suc zero) = some and_one
objects (suc (suc zero)) = some (an_object (on_thread 2 leaf_type leaf_type) 1 [])
objects (suc (suc (suc zero))) = some (an_object (on_thread 3 leaf_type leaf_type) 1 [])
objects (suc (suc (suc (suc p)))) = none

abbrev pushed : ℕ → Pushed
pushed thread = record { left = thread ∷ []; right = []; priority = 0; thread_id = thread }

abbrev three : Heap
three = record {
  object = objects;
  thread_id_to_node = λ thread. some thread;
  changed_node = 0;
  prj_node = 0;
  exits = λ thread. 0;
  turn = 9;
  manager = 9;
  thread_root = 1;
  path_false = some false;
  keep_childs = [];
  prsnt = pushed 2 ∷ pushed 3 ∷ [];
  outputs = false;
  state_num = 0;
  calls = [];
}

abbrev quiet_threads : Program
quiet_threads = record {
  part = λ t h. hands_back h;
  arrive = λ t h. some h;
  await = λ h. some h;
  new_node = λ h. some 8;
  junk = false;
  is_output = λ h. true;
}

excute-three : excute quiet_threads 3 2 three ≡ ok (tt, three)
unfolding excute load excute_by leaf_excute exited_at or_false has_exited read_false switch_to
    wait_is_init give_part
excute-three = refl

excute-ManagerTurn_example : ManagerTurn three
excute-ManagerTurn_example =
    excute-ManagerTurn quiet_threads 3 2 three three
      (λ t g g' own e. let same : g ≡ g' = cc e in subst ManagerTurn same own) refl excute-three

drain_two-IsDrained : Keeps IsDrained (drain_prsnt quiet_threads 5 three)
drain_two-IsDrained = drain_prsnt-IsDrained quiet_threads 5 three

-- the threads when each appends its id to a number in its turn
abbrev counting_threads : Program
counting_threads = record quiet_threads {
  part = λ t h. hands_back (record h { state_num = h.state_num * 10 + t });
}

abbrev the_leaf : ℕ → Object
the_leaf thread = an_object (on_thread thread leaf_type leaf_type) 1 []

drain_prsnt-in_turn_example :
    drain_prsnt counting_threads 3 three ≡ ok (tt, record three { prsnt = []; state_num = 32 })
unfolding has_exited
drain_prsnt-in_turn_example =
    drain_prsnt-in_turn counting_threads (λ t n. n * 10 + t) (λ t g. refl) 3 three
      ((2, the_leaf 2, refl, refl, refl, refl), ((3, the_leaf 3, refl, refl, refl, refl), tt)) refl
      refl refl refl (omega arith)

-- the thread 1 that starts the thread 4
abbrev starts_four : Threads
starts_four = record { created = true; thread = 4; self = 1; mutex = 15; cond = 16 }

abbrev without_four : Heap
without_four = record three { thread_id_to_node = λ t. if t == 4 then none else some t }

my_create_thread-IsCreated_example :
    (g : Heap) × (my_create_thread quiet_threads starts_four starts_four true pal_type without_four
      ≡ ok (tt, g))
    × IsCreated quiet_threads starts_four pal_type 1 8 2 and_one without_four g
my_create_thread-IsCreated_example =
    my_create_thread-IsCreated quiet_threads starts_four 1 8 (λ g. refl) pal_type and_one
      (λ e. omega arith) refl starts_four 2 without_four refl (λ e. omega arith) refl refl refl
      (λ e. omega arith) (λ e. omega arith)

-- an AND at 1 whose second child, at 3, is a KEEP
abbrev with_keep : Heap
with_keep = record three {
  object =
      λ p. if p == 3 then some (an_object (on_thread 3 keep_type keep_type) 1 []) else objects p;
}

insert_new_childs-placed_example :
    insert_new_childs 1 (7 ∷ []) with_keep
    ≡ ok (
      tt,
      record with_keep {
        object = λ p.
            if p == 1
            then some (record and_one { childs = 2 ∷ 3 ∷ 7 ∷ [] })
            else with_keep.object p;
      },
    )
insert_new_childs-placed_example =
    insert_new_childs-placed with_keep 1 and_one refl [] (3 ∷ []) (7 ∷ []) 2 refl (_, refl, refl)
      ((_, refl, refl), tt)

-- the threads of `three` when each of them calls $$Push once in a turn
abbrev pushing_threads : Program
pushing_threads = record quiet_threads {
  part = λ t h. hands_back (record h { prsnt = h.prsnt ++ (pushed t ∷ []) });
}

excute-each_child_example :
    excute pushing_threads 4 1 three
    ≡ ok (tt, looked_at 1 and_one (pushed 2 ∷ pushed 3 ∷ pushed 2 ∷ pushed 3 ∷ []) three)
unfolding has_exited
excute-each_child_example =
    excute-each_child pushing_threads pushed (λ t g. refl) three 1 and_one refl refl refl refl refl
      (omega arith)
      (
        (an_object (on_thread 2 leaf_type leaf_type) 1 [], refl, refl, λ e. omega arith),
        ((an_object (on_thread 3 leaf_type leaf_type) 1 [], refl, refl, λ e. omega arith), tt),
      )
      2 (omega arith)

abbrev none_pushed : Heap
none_pushed = record three { prsnt = [] }

states-IsOver_example : Keeps (λ g. IsSettled g × HasEnded g) (states quiet_threads 5 none_pushed)
states-IsOver_example = states-IsOver quiet_threads 5 none_pushed ((refl, refl), refl)
