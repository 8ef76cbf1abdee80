-- ===== src/Manager/Examples.antt =====
-- The theorems about $$Push of msvl.c at a short string, with the space 32.
use lib_msvl.Base.{ℕ, ◌≡◌, refl, Bool, true, false, none, some, ok, List, [], ◌∷◌, ◌++◌, ◌==◌}
use lib_msvl.Manager.Push.{push, right_of, token, split, split_from}
use lib_msvl.Manager.Tokens.{All, Words, join, split-join}

abbrev is_blank : ℕ → Bool
is_blank c = c == 32

abbrev two_words : List (List ℕ × List ℕ)
two_words = ((65 ∷ 66 ∷ []), (32 ∷ [])) ∷ ((67 ∷ []), (32 ∷ 32 ∷ [])) ∷ []

two_words-Words : Words is_blank two_words
unfolding Words All
two_words-Words = (
  (λ e. absurd cc),
  (refl, (refl, tt)),
  (λ e. absurd cc),
  (refl, tt),
  ((λ e. absurd cc), (refl, tt), (λ e. absurd cc), (refl, (refl, tt)), tt),
)

last-All : All is_blank false (68 ∷ [])
unfolding All
last-All = (refl, tt)

split-join_example :
    split is_blank (join is_blank two_words ++ (68 ∷ []))
    ≡ some (65 ∷ 66 ∷ []) ∷ some (67 ∷ []) ∷ []
split-join_example = split-join is_blank two_words (68 ∷ []) two_words-Words last-All

-- A string that begins with a space gives a NULL array first.
leading_space : split is_blank (32 ∷ 65 ∷ 32 ∷ []) ≡ token [] ∷ some (65 ∷ []) ∷ []
unfolding split split_from
leading_space = refl

push_first :
    push is_blank true 5 (some (65 ∷ [])) (some (66 ∷ 32 ∷ [])) 1 none
    ≡ ok (
        some (
          record { thread_id = 5; left = 65 ∷ 0 ∷ []; right = some (66 ∷ []) ∷ []; priority = 1 }
          ∷ []))
unfolding push right_of split split_from
push_first = refl
