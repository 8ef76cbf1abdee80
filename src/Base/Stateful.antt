-- ===== src/Base/Stateful.antt =====
-- A piece of the program that reads and changes a state, and what such a piece keeps when it
-- returns.
use Prim.Native.Nat.{ℕ}
use mathlib.Core.Path.{◌≡◌, subst}
use mathlib.Core.Bool.{Bool, true, false}
use mathlib.Core.Option.{Option, none, some}
use lib_msvl.Base.Outcome
use lib_msvl.Base.Outcome.{Run, ok, fault, exit, out_of_fuel}
use lib_msvl.Base.Tests.{if◌then◌else◌}

abbrev pub Stateful : Type 0 → Type 0 → Type 0
Stateful S A = S → Run (A × S)

abbrev pub return : {S A : Type 0} → A → Stateful S A
return a s = ok (a, s)

infixl 5 ◌>>=◌ ◌>>◌
abbrev pub ◌>>=◌ : {S A B : Type 0} → Stateful S A → (A → Stateful S B) → Stateful S B
◌>>=◌ m f s = Outcome.◌>>=◌ (m s) (λ r. f r.0 r.1)

abbrev pub ◌>>◌ : {S B : Type 0} → Stateful S (Unit {0}) → Stateful S B → Stateful S B
m >> k = m >>= λ _. k

abbrev pub state : {S : Type 0} → Stateful S S
state s = ok (s, s)

abbrev pub change : {S : Type 0} → (S → S) → Stateful S (Unit {0})
change f s = ok (tt, f s)

abbrev pub undefined : {S A : Type 0} → Stateful S A
undefined s = fault

abbrev pub diverges : {S A : Type 0} → Stateful S A
diverges s = out_of_fuel

abbrev pub ends_program : {S A : Type 0} → ℕ → Stateful S A
ends_program n s = exit n

-- Where the run returns, `P` holds of the state.
pub data Keeps {S : Type 0} (P : S → Type 0) {A : Type 0} : Run (A × S) → Type 0 where
  returns : (a : A) (s : S) → P s → Keeps P (ok (a, s))
  faults : Keeps P fault
  exits : (n : ℕ) → Keeps P (exit n)
  runs_out : Keeps P out_of_fuel

module _ {S : Type 0} (P : S → Type 0) where
  pub Keeps-bind :
      {A B : Type 0} (m : Run (A × S)) (k : A × S → Run (B × S))
      → Keeps P m
      → ((a : A) (s : S) → P s → Keeps P (k (a, s)))
      → Keeps P (Outcome.◌>>=◌ m k)
  Keeps-bind m k (returns a s p) h = h a s p
  Keeps-bind m k faults h = faults
  Keeps-bind m k (exits n) h = exits n
  Keeps-bind m k runs_out h = runs_out

  pub Keeps-if :
      {A : Type 0} (b : Bool) (m k : Stateful S A) (s : S)
      → Keeps P (m s)
      → Keeps P (k s)
      → Keeps P ((if b then m else k) s)
  Keeps-if true m k s h h' = h
  Keeps-if false m k s h h' = h'

  pub Keeps-option :
      {X A : Type 0} (o : Option X) (m : Run (A × S)) (k : X → Run (A × S))
      → Keeps P m
      → ((x : X) → Keeps P (k x))
      → Keeps P (elim o as (λ _. Run (A × S)) [ none ↦ m | some x ↦ k x ])
  Keeps-option none m k h h' = h
  Keeps-option (some x) m k h h' = h' x

  -- of a property that every state has
  pub Keeps-always : {A : Type 0} (r : Run (A × S)) → ((s : S) → P s) → Keeps P r
  Keeps-always (ok (a, s)) h = returns a s (h s)
  Keeps-always fault h = faults
  Keeps-always (exit n) h = exits n
  Keeps-always out_of_fuel h = runs_out

  pub Keeps-ok : {A : Type 0} (r : Run (A × S)) (a : A) (s : S) → Keeps P r → r ≡ ok (a, s) → P s
  Keeps-ok {A} r a s (returns b t p) e = subst P same p
    where
      same : t ≡ s
      same = cc
  Keeps-ok r a s faults e = absurd cc
  Keeps-ok r a s (exits n) e = absurd cc
  Keeps-ok r a s runs_out e = absurd cc

-- a chain whose second piece comes to another property
pub Keeps-then :
    {S A B : Type 0} (P Q : S → Type 0) (m : Run (A × S)) (k : A × S → Run (B × S))
    → Keeps P m
    → ((a : A) (s : S) → P s → Keeps Q (k (a, s)))
    → Keeps Q (Outcome.◌>>=◌ m k)
Keeps-then P Q m k (returns a s p) h = h a s p
Keeps-then P Q m k faults h = faults
Keeps-then P Q m k (exits n) h = exits n
Keeps-then P Q m k runs_out h = runs_out

-- a chain whose second piece comes to a property from any state
pub Keeps-last :
    {S A B : Type 0} (Q : S → Type 0) (m : Stateful S A) (k : A → Stateful S B) (s : S)
    → ((a : A) (t : S) → Keeps Q (k a t))
    → Keeps Q ((m >>= k) s)
Keeps-last Q m k s h =
    Keeps-then (λ _. Unit {0}) Q (m s) (λ r. k r.0 r.1)
      (Keeps-always (λ _. Unit {0}) (m s) (λ t. tt)) (λ a t u. h a t)
