-- ===== src/Predecessor/Protocol.antt =====
-- The accesses to `turn` in function.cpp by the manager (LeafNode::excute and its kin) and by the
-- threads (MyPauseThread, MyPauseThreadInit and MyCreateThread), interleaved in any order. Here
-- MyPauseThreadInit only waits for the turn, and does not write it as that of msvl.c does.
use lib_msvl.Base.{ℕ, ◌≡◌, ◌≢◌}
use lib_msvl.Turns.Protocol.{absent, fresh, paused, running, ended, working, waiting, System, move}

pub data Turn (s : System) : System → Type 0 where
  start_thread :
      (t c : ℕ)
      → s.place t ≡ running
      → s.place c ≡ absent
      → c ≢ s.manager_id
      → Turn s (record s { place = move c fresh s.place })
  wait_first : (c : ℕ) → s.place c ≡ fresh → Turn s (record s { place = move c paused s.place })
  take_turn :
      (t : ℕ)
      → s.place t ≡ paused
      → s.turn_id ≡ t
      → Turn s (record s { place = move t running s.place })
  hand_back :
      (t : ℕ)
      → s.place t ≡ running
      → Turn s (record s { turn_id = s.manager_id; place = move t paused s.place })
  finish_thread : (t : ℕ) → s.place t ≡ running → Turn s (record s { place = move t ended s.place })
  excute_thread :
      (t : ℕ)
      → s.manager ≡ working
      → t ≢ s.manager_id
      → s.place t ≡ paused
      → Turn s (record s { turn_id = t; manager = waiting t })
  see_turn :
      (t : ℕ)
      → s.manager ≡ waiting t
      → s.turn_id ≡ s.manager_id
      → Turn s (record s { manager = working })
  see_exit :
      (t : ℕ)
      → s.manager ≡ waiting t
      → s.place t ≡ ended
      → Turn s (record s { turn_id = s.manager_id; manager = working })

pub data Turns (s : System) : System → Type 0 where
  begin : Turns s s
  then_turn : {t u : System} → Turns s t → Turn t u → Turns s u
