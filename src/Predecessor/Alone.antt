-- ===== src/Predecessor/Alone.antt =====
-- At most one thread runs in function.cpp, whenever its new threads come to MyPauseThreadInit.
use lib_msvl.Base.{ℕ, true, ◌≡◌, ◌≢◌, ◌⊎◌, inl, inr, refl, subst}
use lib_msvl.Turns.Protocol.{
  fresh, paused, running, working, System, move, Step, create, resume, pause, end, give, back, reap,
  Start,
}
use lib_msvl.Turns.Exclusion.{
  Inv, Start-Inv, Step-Inv, still_running, stays_absent, not_manager, alone, given_kept,
}
use lib_msvl.Predecessor.Protocol.{
  Turn, start_thread, wait_first, take_turn, hand_back, finish_thread, excute_thread, see_turn,
  see_exit, Turns, begin, then_turn,
}

-- A new thread that waits for its first turn, and changes nothing else.
abbrev Waits : System → System → Type 0
Waits s t = (c : ℕ) × (s.place c ≡ fresh) × (record s { place = move c paused s.place } ≡ t)

-- Every other step is one of msvl.c too.
in_common : {s t : System} → Turn s t → Waits s t ⊎ Step true s t
in_common (start_thread t c r a d) = inr (create t c r a d)
in_common (wait_first c f) = inl (c, f, refl)
in_common (take_turn t p e) = inr (resume t p e)
in_common (hand_back t r) = inr (pause t r)
in_common (finish_thread t r) = inr (end t r)
in_common (excute_thread t w d p) = inr (give t w d p)
in_common (see_turn t w e) = inr (back t w e)
in_common (see_exit t w e) = inr (reap t w e)

wait_first-Inv :
    {s : System} (c : ℕ)
    → s.place c ≡ fresh
    → Inv s
    → Inv (record s { place = move c paused s.place })
wait_first-Inv {s} c f i = record {
  calm = i.calm;
  mine = λ u e. i.mine u (still_running c u paused s.place (λ q. cc) e).0;
  apart =
      stays_absent c s.manager_id paused s.place
        (not_manager s.manager_id c fresh s.place i.apart f (λ q. cc)) i.apart;
  known = λ t e. given_kept c t paused s.place refl (i.known t e);
  given = i.given;
}

Turn-Inv : {s t : System} → Turn s t → Inv s → Inv t
Turn-Inv {s} {t} turn i = elim (in_common turn) [
  | inl w ↦ subst Inv w.2 (wait_first-Inv w.0 w.1 i)
  | inr st ↦ Step-Inv st i
]

Turns-Inv : {s t : System} → Start s → Turns s t → Inv t
Turns-Inv h begin = Start-Inv h
Turns-Inv h (then_turn r turn) = Turn-Inv turn (Turns-Inv h r)

-- From a start at which no thread runs, whatever the moment at which a new thread comes to
-- MyPauseThreadInit: two threads never run at once, and none runs while the manager is working; the
-- one that runs has the turn.
pub Turns-exclusive :
    {s t : System}
    → Start s
    → Turns s t
    → (u v : ℕ) → t.place u ≡ running
    → t.place v ≡ running
    → (u ≡ v) × (t.manager ≢ working) × (t.turn_id ≡ u)
Turns-exclusive h r u v p q =
    let i = Turns-Inv h r in (alone v u i q p, λ w. cc ((i.mine u p).0, w), (i.mine u p).1)
