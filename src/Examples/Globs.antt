-- ===== src/Examples/Globs.antt =====
-- Glob patterns of src/sync.rs on concrete paths.
use agentic_file_transfer.Base.{◌≡◌, refl, ◌↔◌, List, ℕ, [], ◌∷◌, true, false}
use agentic_file_transfer.Sync.Glob.{glob_match}
use agentic_file_transfer.Sync.Matching.{Matches}
use agentic_file_transfer.Sync.Deciding.{glob_match_iff}

-- "a/**/?.c*"
abbrev pattern_text : List ℕ
pattern_text = 97 ∷ 47 ∷ 42 ∷ 42 ∷ 47 ∷ 63 ∷ 46 ∷ 99 ∷ 42 ∷ []

-- "a/x/b.cc"
abbrev path_text : List ℕ
path_text = 97 ∷ 47 ∷ 120 ∷ 47 ∷ 98 ∷ 46 ∷ 99 ∷ 99 ∷ []

glob_match_iff_example : (glob_match pattern_text path_text ≡ true) ↔ Matches pattern_text path_text
glob_match_iff_example = glob_match_iff pattern_text path_text

found : glob_match pattern_text path_text ≡ true
unfolding glob_match
found = refl

-- "*" against "a/b"
not_across : glob_match (42 ∷ []) (97 ∷ 47 ∷ 98 ∷ []) ≡ false
unfolding glob_match
not_across = refl
