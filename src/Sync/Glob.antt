-- ===== src/Sync/Glob.antt =====
-- `glob_match` of src/sync.rs. A pattern and a text are lists of characters; where the source moves an
-- index, the model passes on the rest of the list.
use agentic_file_transfer.Base.{
  ℕ, zero, suc, ◌+◌, List, [], ◌∷◌, Bool, true, false, ◌&&◌, ◌||◌, length, ◌==◌, if◌then◌else◌,
}

abbrev pub star : ℕ
star = 42

abbrev pub question : ℕ
question = 63

abbrev pub slash : ℕ
slash = 47

abbrev pub is_nil : List ℕ → Bool
is_nil [] = true
is_nil (c ∷ cs) = false

abbrev pub starts_with : ℕ → List ℕ → Bool
starts_with c [] = false
starts_with c (d ∷ ds) = d == c

abbrev pub rest_of : List ℕ → List ℕ
rest_of [] = []
rest_of (c ∷ cs) = cs

-- "Skip optional trailing '/'"
unfoldable pub skip_slash : List ℕ → List ℕ
skip_slash pat = if starts_with slash pat then rest_of pat else pat

-- "Handle trailing stars"
unfoldable pub skip_stars : List ℕ → List ℕ
skip_stars [] = []
skip_stars (p ∷ pat) = let rest = skip_stars pat in if p == star then rest else p ∷ pat

-- `for i in ti..=txt.len()`
unfoldable pub try_everywhere : (List ℕ → Bool) → List ℕ → Bool
try_everywhere rest_matches [] = rest_matches []
try_everywhere rest_matches (t ∷ txt) = rest_matches (t ∷ txt) || try_everywhere rest_matches txt

-- The same loop, which breaks behind a '/'.
unfoldable pub try_in_segment : (List ℕ → Bool) → List ℕ → Bool
try_in_segment rest_matches [] = rest_matches []
try_in_segment rest_matches (t ∷ txt) =
    let further = try_in_segment rest_matches txt in
    rest_matches (t ∷ txt) || (if t == slash then false else further)

-- One round of the loop; `go` is what comes after it, a recursive call or the next round.
unfoldable pub glob_round : (List ℕ → List ℕ → Bool) → List ℕ → List ℕ → Bool
unfolding skip_slash skip_stars try_everywhere try_in_segment
glob_round go [] txt = is_nil txt
glob_round go (p ∷ pat) [] = is_nil (skip_stars (p ∷ pat))
glob_round go (p ∷ pat) (t ∷ txt) =
    if p == star && starts_with star pat
    then try_everywhere (go (skip_slash (rest_of pat))) (t ∷ txt)
    else if p == star
    then try_in_segment (go pat) (t ∷ txt)
    else if p == question
    then if t == slash then false else go pat txt
    else if p == t
    then go pat txt
    else false

-- Every round takes a character of the pattern.
unfoldable pub glob_match_inner : ℕ → List ℕ → List ℕ → Bool
unfolding glob_round
glob_match_inner zero pat txt = false
glob_match_inner (suc fuel) pat txt = glob_round (glob_match_inner fuel) pat txt

unfoldable pub glob_match : List ℕ → List ℕ → Bool
unfolding glob_match_inner
glob_match pattern text = glob_match_inner (length pattern + 1) pattern text
