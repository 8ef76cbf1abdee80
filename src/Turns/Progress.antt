-- ===== src/Turns/Progress.antt =====
-- The turn comes back to the manager; and new threads that are not prompt let it come back too
-- early.
use lib_msvl.Base.{
  ℕ, ◌<◌, ◌≤◌, Bool, true, false, ◌==◌, ◌≡◌, ◌≢◌, refl, sym, ap, ◌∙◌, ◌⊎◌, inl, inr, Bool-cases,
  eq→==, ne→==, if◌then◌else◌, arith,
}
use lib_msvl.Turns.Protocol.{
  Place, absent, fresh, paused, running, ended, Manager, working, waiting, System, move, Step,
  create, reach_init, resume, pause, end, give, back, reap, Start, Reach, here, next,
}
use lib_msvl.Turns.Exclusion.{Inv, not_manager, turn-waiting, Reach-Inv, is_given}

-- where the moved thread is
moved : (t : ℕ) (p : Place) (f : ℕ → Place) → move t p f t ≡ p
moved t p f = ap (λ b. if b then p else f t) (eq→== t t refl)

Reach-trans : {b : Bool} {s t u : System} → Reach b s t → Reach b t u → Reach b s u
Reach-trans r here = r
Reach-trans r (next r' st) = next (Reach-trans r r') st

-- While a thread runs and the manager waits for it, a thread that has been created and gets to
-- MyPauseThreadInit hands the turn to the manager: both then run.
pub early_turn :
    (s : System) (t c : ℕ)
    → s.manager ≡ waiting t
    → s.place t ≡ running
    → s.place c ≡ fresh
    → (s' : System) × Reach false s s' × (s'.manager ≡ working) × (s'.place t ≡ running)
early_turn s t c w r f = (
  record s { turn_id = s.manager_id; manager = working; place = move c paused s.place },
  next (next here (reach_init c f (λ e. absurd cc))) (back t w refl),
  refl,
  ap (λ b. if b then paused else s.place t)
        (ne→== t c (λ e. clash (s.place c) f (ap s.place (sym e) ∙ r)))
      ∙ r,
)
  where
    clash : (p : Place) → p ≡ fresh → p ≢ running
    clash p h k = cc

-- The last step: from a thread that has paused, or ended.
returned :
    (s : System) (t : ℕ)
    → s.manager ≡ waiting t
    → (s.turn_id ≡ s.manager_id) ⊎ (s.place t ≡ ended)
    → (s' : System) × Reach true s s' × (s'.manager ≡ working)
returned s t w (inl e) = (record s { manager = working }, next here (back t w e), refl)
returned s t w (inr e) =
    (record s { turn_id = s.manager_id; manager = working }, next here (reap t w e), refl)

-- from a thread that runs
paused_after :
    (s : System) (t : ℕ)
    → s.manager ≡ waiting t
    → s.place t ≡ running
    → (s' : System) × Reach true s s' × (s'.manager ≡ working)
paused_after s t w r =
    let s1 = record s { turn_id = s.manager_id; place = move t paused s.place } in
    let (s', more, e) = returned s1 t w (inl refl) in
    (s', Reach-trans (next here (pause t r)) more, e)

by_place :
    (s : System) (t : ℕ) (p : Place)
    → Inv s
    → s.manager ≡ waiting t
    → s.place t ≡ p
    → is_given p ≡ true
    → (s' : System) × Reach true s s' × (s'.manager ≡ working)
by_place s t absent i w e g = absurd cc
by_place s t fresh i w e g = absurd cc
by_place s t ended i w e g = returned s t w (inr e)
by_place s t running i w e g = paused_after s t w e
by_place s t paused i w e g = elim (i.given t w) [
  | inl own ↦ returned s t w (inl own)
  | inr at_t ↦
      (let (s', more, q) =
          paused_after (record s { place = move t running s.place }) t w
            (moved t running s.place) in
        (s', Reach-trans (next here (resume t e at_t)) more, q))
]

-- There is no deadlock: from every state that is reached from a start, with prompt new threads, in
-- which the manager waits for a thread, it can come to work again.
pub turn_returns :
    {s t : System}
    → Start s
    → Reach true s t
    → (u : ℕ) → t.manager ≡ waiting u
    → (t' : System) × Reach true t t' × (t'.manager ≡ working)
turn_returns {s} {t} h r u w =
    let i = Reach-Inv h r in by_place t u (t.place u) i w refl (i.known u w)

-- How many of the steps to resume, to pause or end, and to go on working are left, where the place
-- is that of the thread that the manager waits for, and the flag says that the manager has the
-- turn.
pub steps_left : Place → Bool → ℕ
steps_left paused true = 1
steps_left paused false = 3
steps_left running own = 2
steps_left ended own = 1
steps_left absent own = 0
steps_left fresh own = 0

distance_of : Manager → (ℕ → Place) → Bool → ℕ
distance_of working f own = 0
distance_of (waiting u) f own = steps_left (f u) own

pub distance : System → ℕ
distance s = distance_of s.manager s.place (s.turn_id == s.manager_id)

distance-at :
    (s : System) (u : ℕ) (p : Place) (own : Bool)
    → s.manager ≡ waiting u
    → s.place u ≡ p
    → (s.turn_id == s.manager_id) ≡ own
    → distance s ≡ steps_left p own
unfolding distance distance_of
distance-at s u p own w e h =
    ap (λ m. distance_of m s.place (s.turn_id == s.manager_id)) w
    ∙ ap (λ q. steps_left q (s.turn_id == s.manager_id)) e
    ∙ ap (steps_left p) h

distance-positive :
    (s : System) (u : ℕ) (p : Place)
    → s.manager ≡ waiting u
    → s.place u ≡ p
    → is_given p ≡ true
    → 0 < distance s
unfolding steps_left
distance-positive s u absent w e g = absurd cc
distance-positive s u fresh w e g = absurd cc
distance-positive s u running w e g = omega (arith, distance-at s u running _ w e refl)
distance-positive s u ended w e g = omega (arith, distance-at s u ended _ w e refl)
distance-positive s u paused w e g = elim (Bool-cases (s.turn_id == s.manager_id)) [
  | inl h ↦ omega (arith, distance-at s u paused true w e h)
  | inr h ↦ omega (arith, distance-at s u paused false w e h)
]

-- A step that creates a thread changes nothing else.
pub Creates : System → System → Type 0
Creates s t = (c : ℕ) × (s.place c ≡ absent) × (t.place c ≡ fresh) × (distance t ≡ distance s)

at_most_three : (m : Manager) (f : ℕ → Place) (own : Bool) → distance_of m f own ≤ 3
unfolding distance_of steps_left
at_most_three working f own = omega arith
at_most_three (waiting u) f own = bound (f u) own
  where
    bound : (p : Place) (own : Bool) → steps_left p own ≤ 3
    bound paused true = omega arith
    bound paused false = omega arith
    bound running own = omega arith
    bound ended own = omega arith
    bound absent own = omega arith
    bound fresh own = omega arith

nearer :
    {s t : System}
    → Inv s
    → (u : ℕ) → s.manager ≡ waiting u
    → Step true s t
    → (distance t < distance s) ⊎ Creates s t
unfolding steps_left Creates distance distance_of
nearer {s} i u w (create t c r a d) = inr (c, a, moved c fresh s.place, same)
  where
    other : (u == c) ≡ false
    other = ne→== u c (λ e. cc (sym (i.known u w) ∙ ap is_given (ap s.place e ∙ a)))

    same : distance (record s { place = move c fresh s.place }) ≡ distance s
    same =
        distance-at (record s { place = move c fresh s.place }) u (s.place u) _ w
          (ap (λ b. if b then fresh else s.place u) other) refl
        ∙ sym (distance-at s u (s.place u) _ w refl refl)
nearer i u w (reach_init c f p) = absurd (cc (p refl, w))
nearer {s} i u w (resume t p e) = inl (
    omega (
      arith,
      distance-at s t paused false (turn-waiting t s.manager i refl p e) p (
          ne→== s.turn_id s.manager_id
            (λ q. not_manager s.manager_id t paused s.place i.apart p (λ z. cc) (sym q ∙ e))),
      distance-at (record s { place = move t running s.place }) t running _
          (turn-waiting t s.manager i refl p e) (moved t running s.place) refl,
    ))
nearer {s} i u w (pause t r) = inl (
    omega (
      arith,
      distance-at s t running _ (i.mine t r).0 r refl,
      distance-at (record s { turn_id = s.manager_id; place = move t paused s.place }) t paused true
          (i.mine t r).0 (moved t paused s.place) (eq→== s.manager_id s.manager_id refl),
    ))
nearer {s} i u w (end t r) = inl (
    omega (
      arith,
      distance-at s t running _ (i.mine t r).0 r refl,
      distance-at (record s { place = move t ended s.place }) t ended _ (i.mine t r).0
          (moved t ended s.place) refl,
    ))
nearer i u w (give t v d p) = absurd (cc (v, w))
nearer {s} i u w (back t v e) = inl (distance-positive s u (s.place u) w refl (i.known u w))
nearer {s} i u w (reap t v e) = inl (distance-positive s u (s.place u) w refl (i.known u w))

-- Every step of a state that is reached from a start, with prompt new threads, in which the manager
-- waits for a thread, either creates a thread or brings the manager nearer to the end of its wait,
-- which at most three such steps can do.
pub turn_nearer :
    {s t t' : System}
    → Start s
    → Reach true s t
    → (u : ℕ) → t.manager ≡ waiting u
    → Step true t t'
    → (distance t ≤ 3) × ((distance t' < distance t) ⊎ Creates t t')
unfolding distance
turn_nearer h r u w st = (at_most_three _ _ _, nearer (Reach-Inv h r) u w st)
