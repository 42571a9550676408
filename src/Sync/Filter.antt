-- ===== src/Sync/Filter.antt =====
-- Comparison of files, `GlobPattern`, `Filter` and the URL helpers of src/sync.rs.
use agentic_file_transfer.Base.{
  ℕ, ◌-◌, List, [], ◌∷◌, Bool, true, false, not, ◌&&◌, ◌||◌, Option, none, some, length, take, drop,
  ◌++◌, leb, ◌==◌, bytes_eq, if◌then◌else◌,
}
use agentic_file_transfer.Sync.Glob.{star, slash, is_nil, starts_with, rest_of, glob_match}

-- `str::contains` and `str::ends_with`
abbrev pub contains : ℕ → List ℕ → Bool
contains c [] = false
contains c (d ∷ ds) = d == c || contains c ds

abbrev pub ends_with : List ℕ → List ℕ → Bool
ends_with path end =
    leb (length end) (length path) && bytes_eq (drop (length path - length end) path) end

abbrev pub dot : ℕ
dot = 46

-- `GlobPattern::matches`
unfoldable pub pattern_matches : List ℕ → List ℕ → Bool
unfolding glob_match
pattern_matches pat path =
    if starts_with star pat && starts_with dot (rest_of pat)
    then ends_with path (rest_of pat)
    else if starts_with dot pat && (not (contains slash pat) && not (contains star pat))
    then ends_with path pat
    else glob_match pat path

pub record Filter : Type 0 where
  pub include : List (List ℕ)
  pub exclude : List (List ℕ)

unfoldable pub any_matches : List (List ℕ) → List ℕ → Bool
unfolding pattern_matches
any_matches [] path = false
any_matches (pat ∷ pats) path = pattern_matches pat path || any_matches pats path

-- With no include pattern everything is included.
unfoldable pub included : List (List ℕ) → List ℕ → Bool
unfolding any_matches
included [] path = true
included (pat ∷ pats) path = any_matches (pat ∷ pats) path

-- `Filter::matches`
unfoldable pub matches : Filter → List ℕ → Bool
unfolding any_matches included
matches f path = if any_matches f.exclude path then false else included f.include path

pub data CompareMode : Type 0 where
  size mod_time checksum : CompareMode

pub record DirectoryEntry : Type 0 where
  pub name : List ℕ
  pub size : Option ℕ
  pub is_directory : Bool
  pub last_modified : Option (List ℕ)
  pub relative_path : Option (List ℕ)
  pub is_symlink : Option Bool
  pub permissions : Option ℕ

-- `==` on an optional size.
abbrev pub same_size : Option ℕ → Option ℕ → Bool
same_size none none = true
same_size none (some b) = false
same_size (some a) none = false
same_size (some a) (some b) = a == b

-- "Can't compare → assume needs update"
unfoldable pub modified : Option (List ℕ) → Option (List ℕ) → Bool
modified (some s) (some d) = not (bytes_eq s d)
modified (some s) none = true
modified none d = true

unfoldable pub needs_update : CompareMode → DirectoryEntry → DirectoryEntry → Bool
unfolding modified
needs_update CompareMode.size src dst = not (same_size src.size dst.size)
needs_update CompareMode.mod_time src dst =
    if not (same_size src.size dst.size) then true else modified src.last_modified dst.last_modified
needs_update CompareMode.checksum src dst = not (same_size src.size dst.size)

-- "file://"
abbrev pub file_scheme : List ℕ
file_scheme = 102 ∷ 105 ∷ 108 ∷ 101 ∷ 58 ∷ 47 ∷ 47 ∷ []

-- `local_path_from_url`, as it is compiled for other systems than Windows.
unfoldable pub local_path_from_url : List ℕ → List ℕ
local_path_from_url url = if bytes_eq (take 7 url) file_scheme then drop 7 url else url

-- `trim_end_matches('/')`: what stands before the slashes at the end.
unfoldable pub trim_end_slashes : List ℕ → List ℕ
trim_end_slashes [] = []
trim_end_slashes (c ∷ cs) =
    let rest = trim_end_slashes cs in if c == slash && is_nil rest then [] else c ∷ rest

unfoldable pub join_url : List ℕ → List ℕ → List ℕ
unfolding trim_end_slashes
join_url base relative = trim_end_slashes base ++ (slash ∷ relative)
