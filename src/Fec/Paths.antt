-- ===== src/Fec/Paths.antt =====
-- `validate_rel_path` of src/aftp/fec/manifest.rs. A path is the list of its UTF-8 bytes.
use agentic_file_transfer.Base.{
  ℕ, List, [], ◌∷◌, ◌&&◌, ◌||◌, length, get_or, leb, ◌==◌, bytes_eq, if◌then◌else◌, Result, ok, err,
  AftError, Message,
}
use agentic_file_transfer.Base.Fallible.{◌>>◌}
use agentic_file_transfer.Sync.Glob.{slash, is_nil, starts_with}
use agentic_file_transfer.Sync.Filter.{contains}

abbrev pub backslash : ℕ
backslash = 92

abbrev pub this_dir : List ℕ
this_dir = 46 ∷ []

abbrev pub parent_dir : List ℕ
parent_dir = 46 ∷ 46 ∷ []

-- A character in front of the first part.
abbrev pub put_first : ℕ → List (List ℕ) → List (List ℕ)
put_first c [] = (c ∷ []) ∷ []
put_first c (part ∷ parts) = (c ∷ part) ∷ parts

-- `str::split` by a character; the empty text has one part, the empty one.
unfoldable pub split : ℕ → List ℕ → List (List ℕ)
split c [] = [] ∷ []
split c (d ∷ ds) = let parts = split c ds in if d == c then [] ∷ parts else put_first d parts

unfoldable pub check_component : List ℕ → List ℕ → Result (Unit {0})
check_component path comp =
    if is_nil comp || (bytes_eq comp this_dir || bytes_eq comp parent_dir)
    then err (AftError.other (Message.unsafe_component path))
    else if contains backslash comp
    then err (AftError.other (Message.backslash_component path))
    else ok tt

unfoldable pub check_components : List ℕ → List (List ℕ) → Result (Unit {0})
unfolding check_component
check_components path [] = ok tt
check_components path (comp ∷ comps) = check_component path comp >> check_components path comps

unfoldable pub validate_rel_path : List ℕ → Result (Unit {0})
unfolding split check_components
validate_rel_path path =
    if is_nil path
    then err (AftError.other Message.empty_path)
    else if starts_with slash path || starts_with backslash path
    then err (AftError.other (Message.absolute_path path))
    else if leb 2 (length path) && get_or path 1 0 == 58
    then err (AftError.other (Message.drive_path path))
    else check_components path (split slash path)
