-- ===== src/Fec/Manifest/Authentic.antt =====
-- Proofs on what `unpack_tree` of src/aftp/fec/manifest.rs leaves at the destination.
use agentic_file_transfer.Base.{
  ℕ, ◌+◌, ◌≡◌, ◌⊎◌, inl, inr, refl, ap, sym, subst, ◌∙◌, List, [], ◌∷◌, Bool, some, Result, ok, err,
  Result-cases,
}
use agentic_file_transfer.Base.Table.{lookup, bytes_key}
use agentic_file_transfer.Fec.Manifest.Merkle.{regular, dir, Entry}
use agentic_file_transfer.Fec.Manifest.Unpack.{safe_join}
use agentic_file_transfer.Fec.Manifest.Destination.{Destination, FileSystem, after}
use agentic_file_transfer.Fec.Manifest.Unpacking.{
  for_kind, make_dir, make_dirs, note_dir, unpack_file, unpack_files, unpack_tree,
}
use agentic_file_transfer.Fec.Manifest.Traces.{
  Some, kind_cases, Failed, IsLeft, IsOf, Found, unpack_file-Found,
}

module _ (fs : FileSystem) (below : List ℕ → Bool) (sha : List ℕ → List ℕ) (packed : List ℕ)
    (data_base : ℕ) where
  -- The loop passes over a directory, and goes on behind a file or stops at it.
  pub unpack_files-dir :
      (e : Entry) (es : List Entry) (written : ℕ) (d : Destination)
      → e.kind ≡ dir
      → unpack_files fs below sha packed data_base (e ∷ es) written d
        ≡ unpack_files fs below sha packed data_base es written d
  unfolding unpack_files
  unpack_files-dir e es written d same =
      ap
        (λ k.
          for_kind k
            (λ d.
              after (unpack_file fs below sha packed data_base e d)
                (λ u. unpack_files fs below sha packed data_base es (written + 1)))
            (unpack_files fs below sha packed data_base es written) d)
        same

  pub unpack_files-regular :
      (e : Entry) (es : List Entry) (written : ℕ) (d : Destination)
      → e.kind ≡ regular
      → unpack_files fs below sha packed data_base (e ∷ es) written d
        ≡ after
            (unpack_file fs below sha packed data_base e d)
            (λ u. unpack_files fs below sha packed data_base es (written + 1))
  unfolding unpack_files
  unpack_files-regular e es written d same =
      ap
        (λ k.
          for_kind k
            (λ d.
              after (unpack_file fs below sha packed data_base e d)
                (λ u. unpack_files fs below sha packed data_base es (written + 1)))
            (unpack_files fs below sha packed data_base es written) d)
        same

module _ (fs : FileSystem) (below : List ℕ → Bool) (sha : List ℕ → List ℕ) (packed : List ℕ)
    (data_base : ℕ) (path bytes : List ℕ) where
  -- What is found after the entries.
  abbrev FoundIn : Destination → List Entry → Destination × Result ℕ → Type 0
  FoundIn was es outcome =
      lookup path outcome.0.files ≡ some bytes
      → (lookup path was.files ≡ some bytes)
        ⊎ (Some (IsOf below sha path bytes) es ⊎ (Some (IsLeft below path) es × Failed outcome.1))

  next-FoundIn :
      (was : Destination) (e : Entry) (es : List Entry)
      (loop : Destination → Destination × Result ℕ) (went : Destination × Result (Unit {0}))
      → Found fs below sha packed data_base path bytes was e went
      → ((now : Destination) → FoundIn now es (loop now))
      → FoundIn was (e ∷ es) (after went (λ u. loop))
  next-FoundIn was e es loop (now, err bad) step later found = elim (step found) [
    | inl old ↦ inl old
    | inr (inl listed) ↦ inr (inl (inl listed))
    | inr (inr (left, failed)) ↦ inr (inr (inl left, tt))
  ]
  next-FoundIn was e es loop (now, ok u) step later found = elim (later now found) [
    | inr (inl listed) ↦ inr (inl (inr listed))
    | inr (inr (left, failed)) ↦ inr (inr (inr left, failed))
    | inl there ↦ elim (step there) [
      | inl old ↦ inl old
      | inr (inl listed) ↦ inr (inl (inl listed))
      | inr (inr (left, failed)) ↦ absurd failed
    ]
  ]

  skip-FoundIn :
      (was : Destination) (e : Entry) (es : List Entry) (outcome : Destination × Result ℕ)
      → FoundIn was es outcome
      → FoundIn was (e ∷ es) outcome
  skip-FoundIn was e es outcome later found = elim (later found) [
    | inl old ↦ inl old
    | inr (inl listed) ↦ inr (inl (inr listed))
    | inr (inr (left, failed)) ↦ inr (inr (inr left, failed))
  ]

  unpack_files-FoundIn :
      (es : List Entry) (written : ℕ) (was : Destination)
      → FoundIn was es (unpack_files fs below sha packed data_base es written was)
  unfolding unpack_files
  unpack_files-FoundIn [] written was = λ found. inl found
  unpack_files-FoundIn (e ∷ es) written was = elim (kind_cases e.kind) [
    | inr directory ↦
        subst (FoundIn was (e ∷ es))
          (sym (unpack_files-dir fs below sha packed data_base e es written was directory))
          (skip-FoundIn was e es (unpack_files fs below sha packed data_base es written was)
            (unpack_files-FoundIn es written was))
    | inl file ↦
        subst (FoundIn was (e ∷ es))
          (sym (unpack_files-regular fs below sha packed data_base e es written was file))
          (next-FoundIn was e es (unpack_files fs below sha packed data_base es (written + 1))
            (unpack_file fs below sha packed data_base e was)
            (unpack_file-Found fs below sha packed data_base path bytes was e file)
            (unpack_files-FoundIn es (written + 1)))
  ]

-- Making directories changes no file.
made-files :
    (fs : FileSystem) (below : List ℕ → Bool) (was : Destination) (target : List ℕ)
    (answer : Result (Unit {0})) (rest : Destination → Destination × Result (Unit {0}))
    → ((d : Destination) → (rest d).0.files ≡ d.files)
    → (after (after (was, answer) (λ u. note_dir fs below target)) (λ u. rest)).0.files ≡ was.files
made-files fs below was target (err bad) rest same = refl
made-files fs below was target (ok u) rest same = same _

make_dirs-files :
    (fs : FileSystem) (below : List ℕ → Bool) (es : List Entry) (was : Destination)
    → (make_dirs fs below es was).0.files ≡ was.files
unfolding make_dirs make_dir
make_dirs-files fs below [] was = refl
make_dirs-files fs below (e ∷ es) was = elim (kind_cases e.kind) [
  | inl file ↦ rw file (make_dirs-files fs below es was)
  | inr directory ↦ elim (Result-cases (safe_join below e.path)) [
    | inr (bad, refused) ↦ rw (directory, refused) refl
    | inl (target, joined) ↦
        rw (directory, joined)
          (made-files fs below was target (fs.create_dir_all was target) (make_dirs fs below es)
            (make_dirs-files fs below es))
  ]
]

-- Whatever the packed bytes are, whatever the file system answers, and whether unpack_tree succeeds
-- or stops at an error: a file at the destination that was not there with these bytes before has a
-- path and a SHA-256 of one of the files of the manifest, or, only if unpack_tree stops at an error,
-- the path of the temporary of one of these files, whose path passes validate_rel_path and lies below
-- the destination in either case.
pub unpack_tree_authentic :
    (fs : FileSystem) (below : List ℕ → Bool) (sha : List ℕ → List ℕ) (packed : List ℕ)
    (data_base : ℕ) (es : List Entry) (was : Destination) (path bytes : List ℕ)
    → lookup path (unpack_tree fs below sha packed data_base es was).0.files ≡ some bytes
    → (lookup path was.files ≡ some bytes)
      ⊎ (Some (IsOf below sha path bytes) es
          ⊎ (Some (IsLeft below path) es
              × Failed (unpack_tree fs below sha packed data_base es was).1))
unfolding unpack_tree
unpack_tree_authentic fs below sha packed data_base es was path bytes =
    go (make_dirs fs below es was) (make_dirs-files fs below es was)
  where
    go :
        (made : Destination × Result (Unit {0}))
        → made.0.files ≡ was.files
        → FoundIn fs below sha packed data_base path bytes was es
            (after made (λ u. unpack_files fs below sha packed data_base es 0))
    go (now, err bad) same found = inl (sym (ap (lookup path) same) ∙ found)
    go (now, ok u) same found =
        elim (unpack_files-FoundIn fs below sha packed data_base path bytes es 0 now found) [
          | inl old ↦ inl (sym (ap (lookup path) same) ∙ old)
          | inr listed ↦ inr listed
        ]
