-- ===== src/Server/Rooted.antt =====
-- `ServerState::safe_path` of src/aftp/server.rs. A path is absolute, as the list of its components
-- (on Unix); what exists, and where it leads to, is a parameter.
use agentic_file_transfer.Base.{
  ℕ, List, [], ◌∷◌, ◌++◌, Bool, true, false, not, ◌&&◌, ◌||◌, ◌==◌, if◌then◌else◌, Result, ok, err,
  AftError, Message, bytes_eq, raise_if,
}
use agentic_file_transfer.Base.Fallible.{◌>>=◌, ◌>>◌}
use agentic_file_transfer.Server.Texts.{traversal_detected, outside_root}

abbrev pub Components : Type 0
Components = List (List ℕ)

-- `Path::exists` and `Path::canonicalize`
pub record FileTree : Type 0 where
  pub is_there : Components → Bool
  pub canonicalize : Components → Result Components

abbrev pub starts_dot : List ℕ → Bool
starts_dot [] = false
starts_dot (x ∷ xs) = x == 46

-- `requested.contains("..")`
abbrev pub has_dots : List ℕ → Bool
has_dots [] = false
has_dots (x ∷ xs) = (x == 46 && starts_dot xs) || has_dots xs

-- `trim_start_matches('/')`
abbrev pub trim_slashes : List ℕ → List ℕ
trim_slashes [] = []
trim_slashes (x ∷ xs) = let rest = trim_slashes xs in if x == 47 then rest else x ∷ xs

-- `replace('\\', "/")`
abbrev pub replace_backslashes : List ℕ → List ℕ
replace_backslashes [] = []
replace_backslashes (x ∷ xs) = (if x == 92 then 47 else x) ∷ replace_backslashes xs

-- One more character of the component that is being read.
abbrev pub onto_first : ℕ → Components → Components
onto_first x [] = (x ∷ []) ∷ []
onto_first x (c ∷ cs) = (x ∷ c) ∷ cs

abbrev pub split_slashes : List ℕ → Components
split_slashes [] = [] ∷ []
split_slashes (x ∷ xs) =
    let rest = split_slashes xs in if x == 47 then [] ∷ rest else onto_first x rest

-- A path has no empty component, and none that is a dot.
abbrev pub is_name : List ℕ → Bool
is_name c = not (bytes_eq c []) && not (bytes_eq c (46 ∷ []))

abbrev pub only_names : Components → Components
only_names [] = []
only_names (c ∷ cs) = let rest = only_names cs in if is_name c then c ∷ rest else rest

abbrev pub components : List ℕ → Components
components s = only_names (split_slashes s)

abbrev pub is_absolute : List ℕ → Bool
is_absolute [] = false
is_absolute (x ∷ xs) = x == 47

-- `root.join(clean)`: an absolute path takes the place of the root.
unfoldable pub join : Components → List ℕ → Components
join root clean = if is_absolute clean then components clean else root ++ components clean

-- `starts_with`
abbrev pub is_below : Components → Components → Bool
is_below [] p = true
is_below (c ∷ cs) [] = false
is_below (c ∷ cs) (d ∷ ds) = bytes_eq c d && is_below cs ds

abbrev pub backwards : Components → Components → Components
backwards [] done = done
backwards (c ∷ cs) done = backwards cs (c ∷ done)

module _ (fs : FileTree) (root : Components) where
  unfoldable pub canonical_below : Components → Result Components
  canonical_below p = do
    canonical ← fs.canonicalize p
    raise_if (not (is_below root canonical)) (AftError.permission_denied outside_root)
    ok canonical

  -- The nearest ancestor that exists, from the end of the path up, and the names behind it.
  unfoldable pub climb : Components → Components → Result (Components × Components)
  climb [] trailing =
      if fs.is_there [] then ok ([], trailing) else err (AftError.other Message.invalid_path)
  climb (name ∷ parents) trailing =
      let up = climb parents (name ∷ trailing) in
      if fs.is_there (backwards (name ∷ parents) [])
      then ok (backwards (name ∷ parents) [], trailing)
      else up

  unfoldable pub resolve_new : Components → Result Components
  unfolding climb canonical_below
  resolve_new path = do
    (ancestor, trailing) ← climb (backwards path []) []
    canonical ← canonical_below ancestor
    ok (canonical ++ trailing)

  unfoldable pub safe_path : List ℕ → Result Components
  unfolding canonical_below resolve_new join
  safe_path requested =
      let path = join root (replace_backslashes (trim_slashes requested)) in
      if has_dots requested
      then err (AftError.permission_denied traversal_detected)
      else if fs.is_there path
      then canonical_below path
      else resolve_new path
