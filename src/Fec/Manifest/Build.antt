-- ===== src/Fec/Manifest/Build.antt =====
-- `build_manifest` of src/aftp/fec/manifest.rs, behind the walk over the directory: what the walk
-- found is given as lists. SHA-256 is a parameter.
use agentic_file_transfer.Base.{
  ℕ, ◌+◌, List, [], ◌∷◌, ◌++◌, Bool, true, false, replicate, ltb, ◌==◌, if◌then◌else◌, Result, ok,
}
use agentic_file_transfer.Base.Fallible.{◌>>=◌, ◌>>◌}
use agentic_file_transfer.Fec.Paths.{validate_rel_path}
use agentic_file_transfer.Fec.Manifest.Merkle.{regular, dir, Entry, Manifest, merkle_root}

-- A directory that the walk found: path and mode.
pub record FoundDir : Type 0 where
  pub path : List ℕ
  pub mode : ℕ

-- A file that the walk found: path, mode, size and hash.
pub record FoundFile : Type 0 where
  pub path : List ℕ
  pub mode : ℕ
  pub size : ℕ
  pub sha256 : List ℕ

-- `cmp` on strings, as far as it says that the first does not come behind the second.
unfoldable pub comes_first : List ℕ → List ℕ → Bool
comes_first [] bs = true
comes_first (a ∷ as_) [] = false
comes_first (a ∷ as_) (b ∷ bs) = let rest = comes_first as_ bs in if a == b then rest else ltb a b

module _ {A : Type 0} (path : A → List ℕ) where
  unfoldable pub insert_by_path : A → List A → List A
  unfolding comes_first
  insert_by_path x [] = x ∷ []
  insert_by_path x (y ∷ ys) =
      let later = insert_by_path x ys in
      if comes_first (path x) (path y) then x ∷ (y ∷ ys) else y ∷ later

  -- `sort_by`, which keeps the order of equal paths.
  unfoldable pub sort_by_path : List A → List A
  unfolding insert_by_path
  sort_by_path [] = []
  sort_by_path (x ∷ xs) = insert_by_path x (sort_by_path xs)

-- The loop over the directories.
unfoldable pub dir_entries : List FoundDir → Result (List Entry)
dir_entries [] = ok []
dir_entries (d ∷ ds) = do
  validate_rel_path d.path
  rest ← dir_entries ds
  ok (
      record {
        kind = dir;
        path = d.path;
        mode = d.mode;
        size = 0;
        offset = 0;
        sha256 = replicate 32 0;
      }
      ∷ rest)

-- The loop over the files, with the offset behind the last one.
unfoldable pub file_entries : List FoundFile → ℕ → Result (List Entry × ℕ)
file_entries [] offset = ok ([], offset)
file_entries (f ∷ fs) offset = do
  validate_rel_path f.path
  rest ← file_entries fs (offset + f.size)
  ok (
    record {
      kind = regular;
      path = f.path;
      mode = f.mode;
      size = f.size;
      offset = offset;
      sha256 = f.sha256;
    }
        ∷ rest.0,
    rest.1,
  )

unfoldable pub build_manifest : (List ℕ → List ℕ) → List FoundDir → List FoundFile → Result Manifest
unfolding dir_entries file_entries sort_by_path merkle_root
build_manifest sha dirs files = do
  ds ← dir_entries (sort_by_path (λ (d : FoundDir). d.path) dirs)
  fs ← file_entries (sort_by_path (λ (f : FoundFile). f.path) files) 0
  ok (record { entries = ds ++ fs.0; total_len = fs.1; merkle_root = merkle_root sha (ds ++ fs.0) })
