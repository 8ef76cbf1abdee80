-- ===== src/Manager/Tokens.antt =====
-- The splitting of a string by $$Push of msvl.c against the words that the string is made of.
use lib_msvl.Base.{
  ℕ, ◌≡◌, ◌≢◌, refl, sym, ap, ◌∙◌, Bool, true, false, some, List, [], ◌∷◌, ◌++◌, map, append-nil,
  append_assoc,
}
use lib_msvl.Manager.Push.{token, split_from, split}

module _ (isspace : ℕ → Bool) where
  unfoldable pub All : Bool → List ℕ → Type 0
  All b [] = Unit
  All b (c ∷ cs) = (isspace c ≡ b) × All b cs

  -- words and the spaces behind each
  unfoldable pub Words : List (List ℕ × List ℕ) → Type 0
  Words [] = Unit
  Words ((w, gap) ∷ ws) = (w ≢ []) × All false w × (gap ≢ []) × All true gap × Words ws

  pub join : List (List ℕ × List ℕ) → List ℕ
  join [] = []
  join ((w, gap) ∷ ws) = w ++ (gap ++ join ws)

  read_word :
      (word w rest : List ℕ)
      → All false w
      → split_from isspace false word (w ++ rest) ≡ split_from isspace false (word ++ w) rest
  unfolding All split_from
  read_word word [] rest h = ap (λ v. split_from isspace false v rest) (sym (append-nil word))
  read_word word (c ∷ w) rest h = rw (h.0) (
      read_word (word ++ (c ∷ [])) w rest h.1
      ∙ ap (λ v. split_from isspace false v rest) (append_assoc word (c ∷ []) w))

  skip_gap :
      (gap rest : List ℕ)
      → All true gap
      → split_from isspace true [] (gap ++ rest) ≡ split_from isspace true [] rest
  unfolding All split_from
  skip_gap [] rest h = refl
  skip_gap (c ∷ gap) rest h = rw (h.0) (skip_gap gap rest h.1)

  -- At the start of a word it does not matter whether spaces were being skipped.
  resume :
      (w rest : List ℕ)
      → w ≢ []
      → All false w
      → split_from isspace true [] (w ++ rest) ≡ split_from isspace false [] (w ++ rest)
  unfolding All split_from
  resume [] rest n h = absurd (n refl)
  resume (c ∷ w) rest n h = rw (h.0) refl

  token-some : (w : List ℕ) → w ≢ [] → token w ≡ some w
  token-some [] n = absurd (n refl)
  token-some (c ∷ w) n = refl

  leave_gap :
      (word gap rest : List ℕ)
      → gap ≢ []
      → All true gap
      → split_from isspace false word (gap ++ rest) ≡ token word ∷ split_from isspace true [] rest
  unfolding All split_from
  leave_gap word [] rest n h = absurd (n refl)
  leave_gap word (c ∷ gap) rest n h = rw (h.0) (ap (λ l. token word ∷ l) (skip_gap gap rest h.1))

  regroup : (w gap more last : List ℕ) → (w ++ (gap ++ more)) ++ last ≡ w ++ (gap ++ (more ++ last))
  regroup w gap more last =
      append_assoc w (gap ++ more) last ∙ ap (λ l. w ++ l) (append_assoc gap more last)

  start_word :
      (ws : List (List ℕ × List ℕ)) (last : List ℕ)
      → Words ws
      → All false last
      → split_from isspace true [] (join ws ++ last) ≡ split_from isspace false [] (join ws ++ last)
  unfolding Words join All split_from
  start_word [] [] h l = refl
  start_word [] (c ∷ last) h l = rw (l.0) refl
  start_word ((w, gap) ∷ ws) last h l =
      ap (split_from isspace true []) (regroup w gap (join ws) last)
      ∙ resume w (gap ++ (join ws ++ last)) h.0 h.1
      ∙ ap (split_from isspace false []) (sym (regroup w gap (join ws) last))

  -- For a string of words, each with a gap of spaces behind it, and then one word more with no
  -- space behind it, $$Push keeps the words in order, without the gaps, and drops the last one.
  pub split-join :
      (ws : List (List ℕ × List ℕ)) (last : List ℕ)
      → Words ws
      → All false last
      → split isspace (join ws ++ last) ≡ map (λ p. some p.0) ws
  unfolding split Words join split_from
  split-join [] last h l =
      ap (split_from isspace false []) (sym (append-nil last)) ∙ read_word [] last [] l
  split-join ((w, gap) ∷ ws) last h l =
      ap (split_from isspace false []) (regroup w gap (join ws) last)
      ∙ read_word [] w (gap ++ (join ws ++ last)) h.1
      ∙ leave_gap w gap (join ws ++ last) h.2 h.3
      ∙ ap (λ l. token w ∷ l) (start_word ws last h.4 l)
      ∙ ap (λ t. t ∷ split_from isspace false [] (join ws ++ last)) (token-some w h.0)
      ∙ ap (λ l. some w ∷ l) (split-join ws last h.4 l)
