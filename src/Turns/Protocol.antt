-- ===== src/Turns/Protocol.antt =====
-- The accesses to g_turn_id by the manager (leaf_node_execute of node.c and its kin) and by the
-- threads (MyPauseThread, MyPauseThreadInit and MyCreateThread of msvl.c), interleaved in any
-- order. The writes and waits under a node's mutex are one step each.
use lib_msvl.Base.{ℕ, Bool, true, ◌==◌, ◌≡◌, ◌≢◌, if◌then◌else◌}

-- Where a thread stands: not created; created, in front of MyPauseThreadInit; in the loop
-- `while(g_turn_id != id)`; running the program; ended.
pub data Place : Type 0 where
  absent fresh paused running ended : Place

-- Where the manager stands: it runs, or it waits in the loop behind the signal to a thread.
pub data Manager : Type 0 where
  working : Manager
  waiting : ℕ → Manager

pub record System : Type 0 where
  pub manager_id : ℕ
  pub turn_id : ℕ
  pub manager : Manager
  pub place : ℕ → Place

abbrev pub move : ℕ → Place → (ℕ → Place) → ℕ → Place
move t p f u = if u == t then p else f u

-- Where `prompt` is set, a thread that has been created gets to MyPauseThreadInit only while the
-- manager is working, as the threads would have to see to.
pub data Step (prompt : Bool) (s : System) : System → Type 0 where
  create :
      (t c : ℕ)
      → s.place t ≡ running
      → s.place c ≡ absent
      → c ≢ s.manager_id
      → Step prompt s (record s { place = move c fresh s.place })
  reach_init :
      (c : ℕ)
      → s.place c ≡ fresh
      → (prompt ≡ true → s.manager ≡ working)
      → Step prompt s (record s { turn_id = s.manager_id; place = move c paused s.place })
  resume :
      (t : ℕ)
      → s.place t ≡ paused
      → s.turn_id ≡ t
      → Step prompt s (record s { place = move t running s.place })
  pause :
      (t : ℕ)
      → s.place t ≡ running
      → Step prompt s (record s { turn_id = s.manager_id; place = move t paused s.place })
  end : (t : ℕ) → s.place t ≡ running → Step prompt s (record s { place = move t ended s.place })
  give :
      (t : ℕ)
      → s.manager ≡ working
      → t ≢ s.manager_id
      → s.place t ≡ paused
      → Step prompt s (record s { turn_id = t; manager = waiting t })
  back :
      (t : ℕ)
      → s.manager ≡ waiting t
      → s.turn_id ≡ s.manager_id
      → Step prompt s (record s { manager = working })
  reap :
      (t : ℕ)
      → s.manager ≡ waiting t
      → s.place t ≡ ended
      → Step prompt s (record s { turn_id = s.manager_id; manager = working })

-- The manager works, no thread runs.
pub record Start (s : System) : Type 0 where
  pub at_work : s.manager ≡ working
  pub own_turn : s.turn_id ≡ s.manager_id
  pub quiet : (t : ℕ) → s.place t ≢ running
  pub apart : s.place s.manager_id ≡ absent

pub data Reach (prompt : Bool) (s : System) : System → Type 0 where
  here : Reach prompt s s
  next : {t u : System} → Reach prompt s t → Step prompt t u → Reach prompt s u
