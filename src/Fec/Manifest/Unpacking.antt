-- ===== src/Fec/Manifest/Unpacking.antt =====
-- `unpack_tree` of src/aftp/fec/manifest.rs, which writes the files of a packed stream to the
-- destination. SHA-256 is a parameter, and so are the file system's answers. The root of the
-- destination is there and the packed file is open; modes are left out.
use agentic_file_transfer.Base.{
  ℕ, ◌+◌, ◌%◌, ◌^◌, List, [], ◌∷◌, ◌++◌, Bool, false, ◌||◌, ◌==◌, Option, none, some, bytes_eq,
  if◌then◌else◌, Result, ok, err, AftError,
}
use agentic_file_transfer.Base.Table.{insert, remove, bytes_key}
use agentic_file_transfer.Fec.Manifest.Merkle.{EntryKind, regular, dir, Entry}
use agentic_file_transfer.Fec.Manifest.Unpack.{read_chunks, safe_join}
use agentic_file_transfer.Fec.Manifest.Destination.{
  FileSystem, Action, ◌>>=◌, ◌>>◌, pure, lift, request, put, drop_file,
}

-- `tmp`: the target's name with a suffix.
abbrev pub unpack_suffix : List ℕ
unpack_suffix =
    b'.' ∷ b'a' ∷ b'f' ∷ b't' ∷ b'p' ∷ b'-' ∷ b'u' ∷ b'n' ∷ b'p' ∷ b'a' ∷ b'c' ∷ b'k' ∷ []

unfoldable pub temporary : List ℕ → List ℕ
temporary target = target ++ unpack_suffix

-- `target.parent()`, the part before the last slash; nothing is the root.
unfoldable pub has_slash : List ℕ → Bool
has_slash [] = false
has_slash (c ∷ cs) = c == b'/' || has_slash cs

unfoldable pub parent : List ℕ → List ℕ
unfolding has_slash
parent [] = []
parent (c ∷ cs) = let rest = parent cs in if has_slash cs then c ∷ rest else []

-- `filter` by the kind of an entry.
abbrev pub for_kind {ℓ} : {A : Type ℓ} → EntryKind → A → A → A
for_kind regular file directory = file
for_kind dir file directory = directory

module _ (fs : FileSystem) (below : List ℕ → Bool) where
  abbrev pub note_dir : List ℕ → Action (Unit {0})
  note_dir target d = (record d { dirs = target ∷ d.dirs }, ok tt)

  -- `create_dir_all`; what it made before it failed is not seen.
  unfoldable pub make_dir : List ℕ → Action (Unit {0})
  make_dir target = request (λ d. fs.create_dir_all d target) >> note_dir target

  -- The directories of the manifest.
  unfoldable pub make_dirs : List Entry → Action (Unit {0})
  unfolding safe_join make_dir
  make_dirs [] = pure tt
  make_dirs (e ∷ es) =
      let rest = make_dirs es in
      for_kind e.kind rest (lift (safe_join below e.path) >>= λ target. make_dir target >> rest)

  -- `File::create(&tmp)`, which empties what stands there.
  unfoldable pub create_temporary : List ℕ → Action (Unit {0})
  create_temporary tmp = request (λ d. fs.create d tmp) >> λ d. (put tmp [] d, ok tt)

  module _ (sha : List ℕ → List ℕ) (packed : List ℕ) (data_base : ℕ) where
    -- What the temporary holds when the bytes of a file were read and written, or not.
    unfoldable pub filled : List ℕ → Option AftError → Result (List ℕ) → Action (List ℕ)
    filled tmp (some bad) bytes d = (put tmp (fs.left_behind d tmp) d, err bad)
    filled tmp none (err bad) d = (put tmp (fs.left_behind d tmp) d, err bad)
    filled tmp none (ok bytes) d = (put tmp bytes d, ok bytes)

    -- The seek, to a sum that wraps around in a release build, and the loop over the bytes.
    unfoldable pub fill_temporary : Entry → List ℕ → Action (List ℕ)
    unfolding read_chunks filled
    fill_temporary e tmp d =
        let start = (data_base + e.offset) % 2 ^ 64 in
        filled tmp (fs.interrupted d tmp) (read_chunks packed e.size start e.size) d

    -- `let _ = remove_file(&tmp)`
    unfoldable pub discard : List ℕ → Result (Unit {0}) → Action (Unit {0})
    unfolding remove
    discard tmp (ok u) d = (drop_file tmp d, ok tt)
    discard tmp (err ignored) d = (d, ok tt)

    -- `rename(&tmp, &target)`, which replaces what stands under the name.
    unfoldable pub rename_file : List ℕ → List ℕ → Action (Unit {0})
    unfolding insert remove
    rename_file target bytes = request (λ d. fs.rename d (temporary target) target) >> λ d.
        (put target bytes (drop_file (temporary target) d), ok tt)

    -- `if got != e.sha256`. The error carries the hashes themselves.
    unfoldable pub check_file : Entry → List ℕ → List ℕ → Action (Unit {0})
    unfolding discard rename_file
    check_file e target bytes =
        if bytes_eq (sha bytes) e.sha256
        then rename_file target bytes
        else ((λ d. discard (temporary target) (fs.remove_file d (temporary target)) d)
            >> lift (err (AftError.checksum_mismatch e.sha256 (sha bytes))))

    -- One file, from its target on.
    unfoldable pub unpack_to : Entry → List ℕ → Action (Unit {0})
    unfolding make_dir create_temporary fill_temporary check_file parent temporary
    unpack_to e target = do
      make_dir (parent target)
      create_temporary (temporary target)
      bytes ← fill_temporary e (temporary target)
      check_file e target bytes

    -- One round of the loop over the files.
    unfoldable pub unpack_file : Entry → Action (Unit {0})
    unfolding safe_join unpack_to
    unpack_file e = lift (safe_join below e.path) >>= unpack_to e

    unfoldable pub unpack_files : List Entry → ℕ → Action ℕ
    unfolding unpack_file
    unpack_files [] files_written = pure files_written
    unpack_files (e ∷ es) files_written =
        let skipped = unpack_files es files_written in
        let next = unpack_file e >> unpack_files es (files_written + 1) in
        for_kind e.kind next skipped

    -- `unpack_tree`
    unfoldable pub unpack_tree : List Entry → Action ℕ
    unfolding unpack_files make_dirs
    unpack_tree entries = make_dirs entries >> unpack_files entries 0
