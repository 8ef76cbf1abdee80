-- ===== src/Turns/Exclusion.antt =====
-- At most one thread runs, as long as new threads are prompt; and how it fails when they are not.
use lib_msvl.Base.{
  ℕ, Bool, true, false, ◌==◌, ◌≡◌, ◌≢◌, refl, sym, ap, ◌∙◌, ◌⊎◌, inl, inr, Bool-cases, ==→eq, eq→==,
  ne→==, if◌then◌else◌,
}
use lib_msvl.Turns.Protocol.{
  Place, absent, fresh, paused, running, ended, Manager, working, waiting, System, move, Step,
  create, reach_init, resume, pause, end, give, back, reap, Start, Reach, here, next,
}

-- A thread that has been given the turn.
abbrev pub is_given : Place → Bool
is_given absent = false
is_given fresh = false
is_given _ = true

-- Who has the turn, in a state that is reached.
pub record Inv (s : System) : Type 0 where
  pub calm : s.manager ≡ working → s.turn_id ≡ s.manager_id
  pub mine : (u : ℕ) → s.place u ≡ running → (s.manager ≡ waiting u) × (s.turn_id ≡ u)
  pub apart : s.place s.manager_id ≡ absent
  pub known : (t : ℕ) → s.manager ≡ waiting t → is_given (s.place t) ≡ true
  pub given : (t : ℕ) → s.manager ≡ waiting t → (s.turn_id ≡ s.manager_id) ⊎ (s.turn_id ≡ t)

pub Start-Inv : {s : System} → Start s → Inv s
Start-Inv h = record {
  calm = λ e. h.own_turn;
  mine = λ u r. absurd (h.quiet u r);
  apart = h.apart;
  known = λ t e. absurd (cc (h.at_work, e));
  given = λ t e. absurd (cc (h.at_work, e));
}

-- A thread that runs after another has moved elsewhere was running before.
pub still_running :
    (t u : ℕ) (p : Place) (f : ℕ → Place)
    → p ≢ running
    → move t p f u ≡ running
    → (f u ≡ running) × (u ≢ t)
still_running t u p f n h = elim (Bool-cases (u == t)) [
  | inl e ↦ absurd (n (sym (ap (λ b. if b then p else f u) e) ∙ h))
  | inr e ↦ (sym (ap (λ b. if b then p else f u) e) ∙ h, λ q. cc (eq→== u t q))
]

pub stays_absent :
    (t m : ℕ) (p : Place) (f : ℕ → Place) → m ≢ t → f m ≡ absent → move t p f m ≡ absent
stays_absent t m p f d h = ap (λ b. if b then p else f m) (ne→== m t d) ∙ h

-- A thread that is somewhere is not the manager.
pub not_manager :
    (m t : ℕ) (q : Place) (f : ℕ → Place) → f m ≡ absent → f t ≡ q → q ≢ absent → m ≢ t
not_manager m t q f h k n e = n (sym k ∙ sym (ap f e) ∙ h)

pub given_kept :
    (t u : ℕ) (p : Place) (f : ℕ → Place)
    → is_given p ≡ true
    → is_given (f u) ≡ true
    → is_given (move t p f u) ≡ true
given_kept t u p f g h = elim (Bool-cases (u == t)) [
  | inl e ↦ ap (λ b. is_given (if b then p else f u)) e ∙ g
  | inr e ↦ ap (λ b. is_given (if b then p else f u)) e ∙ h
]

-- A thread that has been given the turn is not the new one.
given_other :
    (c u : ℕ) (p : Place) (f : ℕ → Place)
    → f c ≡ absent
    → is_given (f u) ≡ true
    → is_given (move c p f u) ≡ true
given_other c u p f a g = elim (Bool-cases (u == c)) [
  | inl e ↦ absurd (cc (sym g ∙ ap is_given (ap f (==→eq u c e) ∙ a)))
  | inr e ↦ ap (λ b. is_given (if b then p else f u)) e ∙ g
]

waiting-injective : (t u : ℕ) → waiting t ≡ waiting u → t ≡ u
waiting-injective t u e = cc

not_both : (p : Place) → p ≡ ended → p ≢ running
not_both p e r = cc

-- With the turn at a paused thread, the manager waits for it.
pub turn-waiting :
    {s : System} (t : ℕ) (m : Manager)
    → Inv s
    → s.manager ≡ m
    → s.place t ≡ paused
    → s.turn_id ≡ t
    → s.manager ≡ waiting t
turn-waiting {s} t working i e p h =
    absurd (not_manager s.manager_id t paused s.place i.apart p (λ q. cc) (sym (i.calm e) ∙ h))
turn-waiting {s} t (waiting u) i e p h = elim (i.given u e) [
  | inl own ↦ absurd (not_manager s.manager_id t paused s.place i.apart p (λ q. cc) (sym own ∙ h))
  | inr at_u ↦ e ∙ ap waiting (sym at_u ∙ h)
]

-- While the manager waits for one thread, no other runs.
pub alone : {s : System} (t u : ℕ) → Inv s → s.place t ≡ running → s.place u ≡ running → u ≡ t
alone t u i r r' = waiting-injective u t (sym (i.mine u r').0 ∙ (i.mine t r).0)

pub Step-Inv : {s t : System} → Step true s t → Inv s → Inv t
Step-Inv {s} (create t c r a d) i = record {
  known = λ u e. given_other c u fresh s.place a (i.known u e);
  calm = i.calm;
  mine = λ u e. i.mine u (still_running c u fresh s.place (λ q. cc) e).0;
  apart = stays_absent c s.manager_id fresh s.place (λ q. d (sym q)) i.apart;
  given = i.given;
}
Step-Inv {s} (reach_init c f p) i = record {
  known = λ u e. absurd (cc (p refl, e));
  calm = λ e. refl;
  mine = λ u e. absurd (cc ((i.mine u (still_running c u paused s.place (λ q. cc) e).0).0, p refl));
  apart =
      stays_absent c s.manager_id paused s.place
        (not_manager s.manager_id c fresh s.place i.apart f (λ q. cc)) i.apart;
  given = λ t e. inl refl;
}
Step-Inv {s} (resume t p e) i = record {
  known = λ u w. given_kept t u running s.place refl (i.known u w);
  calm = i.calm;
  mine = λ u r. elim (Bool-cases (u == t)) [
    | inl same ↦ (
      turn-waiting t s.manager i refl p e ∙ ap waiting (sym (==→eq u t same)),
      e ∙ sym (==→eq u t same),
    )
    | inr other ↦ i.mine u (sym (ap (λ b. if b then running else s.place u) other) ∙ r)
  ];
  apart =
      stays_absent t s.manager_id running s.place
        (not_manager s.manager_id t paused s.place i.apart p (λ q. cc)) i.apart;
  given = i.given;
}
Step-Inv {s} (pause t r) i = record {
  known = λ u w. given_kept t u paused s.place refl (i.known u w);
  calm = λ e. refl;
  mine = λ u e.
      let (r', d) = still_running t u paused s.place (λ q. cc) e in absurd (d (alone t u i r r'));
  apart =
      stays_absent t s.manager_id paused s.place
        (not_manager s.manager_id t running s.place i.apart r (λ q. cc)) i.apart;
  given = λ t' e. inl refl;
}
Step-Inv {s} (end t r) i = record {
  known = λ u w. given_kept t u ended s.place refl (i.known u w);
  calm = i.calm;
  mine = λ u e.
      let (r', d) = still_running t u ended s.place (λ q. cc) e in absurd (d (alone t u i r r'));
  apart =
      stays_absent t s.manager_id ended s.place
        (not_manager s.manager_id t running s.place i.apart r (λ q. cc)) i.apart;
  given = i.given;
}
Step-Inv {s} (give t w d p) i = record {
  known = λ u e. ap is_given (ap s.place (sym (waiting-injective t u e)) ∙ p);
  calm = λ e. absurd cc;
  mine = λ u r. absurd (cc ((i.mine u r).0, w));
  apart = i.apart;
  given = λ t' e. inr (waiting-injective t t' e);
}
Step-Inv {s} (back t w e) i = record {
  known = λ u e'. absurd cc;
  calm = λ e'. e;
  mine = λ u r.
      absurd
        (not_manager s.manager_id u running s.place i.apart r (λ q. cc) (sym e ∙ (i.mine u r).1));
  apart = i.apart;
  given = λ t' e'. absurd cc;
}
Step-Inv {s} (reap t w e) i = record {
  known = λ u e'. absurd cc;
  calm = λ e'. refl;
  mine = λ u r.
      absurd
        (not_both (s.place t) e (ap s.place (waiting-injective t u (sym w ∙ (i.mine u r).0)) ∙ r));
  apart = i.apart;
  given = λ t' e'. absurd cc;
}

pub Reach-Inv : {s t : System} → Start s → Reach true s t → Inv t
Reach-Inv h here = Start-Inv h
Reach-Inv h (next r st) = Step-Inv st (Reach-Inv h r)

-- From a start at which no thread runs, and as long as every new thread reaches MyPauseThreadInit
-- only while the manager is working: two threads never run at once, and none runs while the manager
-- is working; the one that runs has the turn.
pub mutual_exclusion :
    {s t : System}
    → Start s
    → Reach true s t
    → (u v : ℕ) → t.place u ≡ running
    → t.place v ≡ running
    → (u ≡ v) × (t.manager ≢ working) × (t.turn_id ≡ u)
mutual_exclusion h r u v p q =
    let i = Reach-Inv h r in (alone v u i q p, λ w. cc ((i.mine u p).0, w), (i.mine u p).1)
