-- ===== src/Manager/Push.antt =====
-- $$Push and GetMsvVar of msvl.c. A string is the list of its characters up to the NUL, and is
-- shorter than what an int counts. isspace and the thread's own id are parameters; the arrays are
-- allocated with success. msvl.c names `dyn_array_push_buck`, and `$$prsnt` in the branch that
-- creates the array, which are declared nowhere: they are read as dyn_array_push_back and
-- g_$$prsnt.
use lib_msvl.Base.{
  ℕ, Bool, true, false, Option, none, some, List, [], ◌∷◌, ◌++◌, if◌then◌else◌, Run, ok, fault,
}

-- $$Element
pub record Element : Type 0 where
  pub thread_id : ℕ
  pub left : List ℕ
  pub right : List (Option (List ℕ))
  pub priority : ℕ

-- dyn_array_import of `i - j` characters: NULL if there are none
abbrev pub token : List ℕ → Option (List ℕ)
token [] = none
token (c ∷ cs) = some (c ∷ cs)

-- The characters of `left` are copied with the NUL. A NULL string gives an empty array.
abbrev pub left_of : Option (List ℕ) → List ℕ
left_of none = []
left_of (some cs) = cs ++ (0 ∷ [])

-- the elements of g_$$prsnt, which the first call creates
abbrev pub queue : Option (List Element) → List Element
queue none = []
queue (some es) = es

module _ (isspace : ℕ → Bool) where
  -- The loop over `right`: `word` has the characters from `j` up to `i`, and `skipping` says that
  -- the inner loop runs. What stands behind the last space is not pushed.
  unfoldable pub split_from : Bool → List ℕ → List ℕ → List (Option (List ℕ))
  split_from skipping word [] = []
  split_from true word (c ∷ cs) =
      if isspace c then split_from true word cs else split_from false (c ∷ []) cs
  split_from false word (c ∷ cs) =
      if isspace c
      then token word ∷ split_from true [] cs
      else split_from false (word ++ (c ∷ [])) cs

  unfoldable pub split : List ℕ → List (Option (List ℕ))
  split right = split_from false [] right

  unfoldable pub right_of : Option (List ℕ) → List (Option (List ℕ))
  right_of none = []
  right_of (some cs) = split cs

  -- `prsnt` is g_$$prsnt, NULL before the first call. Without memory for the element its priority
  -- is written through NULL.
  unfoldable pub push :
      Bool
      → ℕ
      → Option (List ℕ)
      → Option (List ℕ)
      → ℕ
      → Option (List Element)
      → Run (Option (List Element))
  push false self left right priority prsnt = fault
  push true self left right priority prsnt = ok (
      some (
        queue prsnt
        ++ (record {
          thread_id = self;
          left = left_of left;
          right = right_of right;
          priority = priority;
        }
            ∷ [])))

-- The static pointers to what the program hands over; 0 is NULL.
pub record Globals : Type 0 where
  pub g_state_num : ℕ
  pub g_output : ℕ
  pub g_is_output : ℕ
  pub g_false : ℕ

-- The new block is lost at once: `g_false = false` makes the pointer NULL.
unfoldable pub get_msv_var : ℕ → ℕ → ℕ → Globals → Globals
get_msv_var s_num output is_output g = record {
  g_state_num = s_num;
  g_output = output;
  g_is_output = is_output;
  g_false = 0;
}
