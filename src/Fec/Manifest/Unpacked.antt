-- ===== src/Fec/Manifest/Unpacked.antt =====
-- Proofs that `unpack_tree` of src/aftp/fec/manifest.rs restores the files of a packed stream.
use agentic_file_transfer.Base.{
  ◌≢◌, subst, ℕ, ◌+◌, ◌^◌, ◌≤◌, ◌<◌, ◌≡◌, refl, ap, sym, ◌∙◌, List, [], ◌∷◌, ◌++◌, Bool, some,
  arith, length, drop, Result, ok, Bool-cases, inl, inr, All, drop-append_self, drop-add,
  length-append, length-drop,
}
use agentic_file_transfer.Base.Table.{
  lookup, insert, lookup-insert, lookup-remove, remove, bytes_key, key_refl,
}
use agentic_file_transfer.Base.Table
use agentic_file_transfer.Fec.Manifest.Merkle.{EntryKind, regular, dir, Entry}
use agentic_file_transfer.Fec.Manifest.Accepted.{Stands, Fills}
use agentic_file_transfer.Fec.Manifest.Destination.{Destination, FileSystem, after, drop_file}
use agentic_file_transfer.Fec.Manifest.Unpacking.{for_kind, temporary, unpack_files, unpack_tree}
use agentic_file_transfer.Fec.Manifest.Traces.{kind_cases}
use agentic_file_transfer.Fec.Manifest.Authentic.{unpack_files-dir, unpack_files-regular}
use agentic_file_transfer.Fec.Manifest.Contents.{bytes_of, tree_bytes}
use agentic_file_transfer.Fec.Manifest.Reading.{
  Describes, with_dirs, with_file, written, AllowsDirs, AllowsFile, AllowsFiles, make_dirs-allowed,
  unpack_file-standing,
}

abbrev pub count_files : List Entry → ℕ
count_files [] = 0
count_files (e ∷ es) = for_kind e.kind (count_files es + 1) (count_files es)

-- No file of these is written by way of a temporary with that name.
abbrev pub Clear : List ℕ → List Entry → Type 0
Clear path es = All (λ d. d.kind ≡ regular → temporary d.path ≢ path) es

-- No file's name is that of a later file's temporary.
abbrev pub AllClear : List Entry → Type 0
AllClear [] = Unit
AllClear (e ∷ es) = Clear e.path es × AllClear es

module _ (fs : FileSystem) (below : List ℕ → Bool) (sha : List ℕ → List ℕ)
    (content : List ℕ → List ℕ) where
  -- The destination with a file more than `d`.
  abbrev filed : List ℕ → Destination → Destination
  filed = with_file below sha content

  -- The loop ended well, with the entries' files in place and the others that were right kept.
  record Restored (es : List Entry) (before : ℕ) (d : Destination) (end : Destination × Result ℕ)
      : Type 0 where
    all_written : end.1 ≡ ok (before + count_files es)
    kept :
        (path : List ℕ)
        → Clear path es
        → lookup path d.files ≡ some (content path)
        → lookup path end.0.files ≡ some (content path)
    there : All (λ e. e.kind ≡ regular → lookup e.path end.0.files ≡ some (content e.path)) es

  with_file-kept :
      (d : Destination) (new path : List ℕ)
      → temporary new ≢ path
      → lookup path d.files ≡ some (content path)
      → lookup path (filed new d).files ≡ some (content path)
  with_file-kept d new path apart h =
      let tmp = temporary new in
      let once = insert tmp [] d.files in
      let twice = insert tmp (content new) once in
      let left = remove tmp twice in
      elim (Bool-cases (Table.◌==◌ path new)) [
        | inl same ↦
            lookup-insert path new (content new) left
            ∙ rw same (ap (λ t. some (content t)) (sym ((bytes_key.same_iff path new).0 same)))
        | inr other ↦ elim (Bool-cases (Table.◌==◌ path tmp)) [
          | inl gone ↦ absurd (apart (sym ((bytes_key.same_iff path tmp).0 gone)))
          | inr stays ↦
              lookup-insert path new (content new) left
              ∙ rw other refl
              ∙ lookup-remove path tmp twice
              ∙ rw stays refl
              ∙ lookup-insert path tmp (content new) once
              ∙ rw stays refl
              ∙ lookup-insert path tmp [] d.files
              ∙ rw stays h
        ]
      ]

  with_file-there :
      (d : Destination) (new : List ℕ) → lookup new (filed new d).files ≡ some (content new)
  with_file-there d new =
      let left = (drop_file (temporary new) (written below sha content new d)).files in
      lookup-insert new new (content new) left ∙ rw (key_refl new) refl

  Restored-dir :
      (e : Entry) (es : List Entry) (before : ℕ) (d : Destination) (end : Destination × Result ℕ)
      → e.kind ≡ dir
      → Restored es before d end
      → Restored (e ∷ es) before d end
  Restored-dir e es before d end same r = record {
    all_written =
        r.all_written
        ∙ ap (λ k. ok (before + for_kind k (count_files es + 1) (count_files es))) (sym same);
    kept = λ path clear. r.kept path clear.1;
    there = ((λ file. cc (same, file)), r.there);
  }

  Restored-regular :
      (e : Entry) (es : List Entry) (before : ℕ) (d : Destination) (end : Destination × Result ℕ)
      → e.kind ≡ regular
      → Clear e.path es
      → Restored es (before + 1) (filed e.path d) end
      → Restored (e ∷ es) before d end
  Restored-regular e es before d end same apart r =
      let n : before + 1 + count_files es ≡ before + (count_files es + 1) = omega arith in
      record {
        all_written =
            r.all_written
            ∙ ap ok n
            ∙ ap (λ k. ok (before + for_kind k (count_files es + 1) (count_files es))) (sym same);
        kept = λ path clear found.
            r.kept path clear.1 (with_file-kept d e.path path (clear.0 same) found);
        there = ((λ file. r.kept e.path apart (with_file-there d e.path)), r.there);
      }

  abbrev AllowsAs : EntryKind → Entry → List Entry → Destination → Type 0
  AllowsAs k e es d =
      for_kind k
        (AllowsFile below sha content fs e.path d
          × AllowsFiles below sha content fs es (filed e.path d))
        (AllowsFiles below sha content fs es d)

  unpack_files-Restored :
      (packed : List ℕ) (data_base : ℕ) (es : List Entry) (at end before : ℕ) (d : Destination)
      → Fills es at end
      → All (Describes below sha content) es
      → AllClear es
      → AllowsFiles below sha content fs es d
      → drop (data_base + at) packed ≡ tree_bytes content es
      → data_base + at ≤ length packed
      → length packed < 2 ^ 64
      → Restored es before d (unpack_files fs below sha packed data_base es before d)
  unfolding unpack_files
  unpack_files-Restored packed base [] at end before d h ds a allowed stands fits small = record {
    all_written = ap ok (omega arith);
    kept = λ path clear found. found;
    there = tt;
  }
  unpack_files-Restored packed base (e ∷ es) at end before d (s, h) (desc, ds) (a, as_) allowed
        stands fits small =
      elim (kind_cases e.kind) [
        | inr directory ↦
            let (empty, nowhere) : Stands dir e at = subst (λ k. Stands k e at) directory s in
            let next : base + (at + e.size) ≡ base + at = omega (arith, empty) in
            let later : AllowsFiles below sha content fs es d =
              subst (λ k. AllowsAs k e es d) directory allowed in
            subst (Restored (e ∷ es) before d)
              (sym (unpack_files-dir fs below sha packed base e es before d directory))
              (Restored-dir e es before d _ directory (
                unpack_files-Restored packed base es (at + e.size) end before d h ds as_ later
                  (ap (λ k. drop k packed) next
                    ∙ stands
                    ∙ ap (λ k. bytes_of content k e.path ++ tree_bytes content es) directory)
                  (omega (arith, next, fits)) small))
        | inl file ↦
            let o : e.offset ≡ at = subst (λ k. Stands k e at) file s in
            let (size, hash) = desc.2 file in
            let (here_allowed, later) : AllowsFile below sha content fs e.path d
                × AllowsFiles below sha content fs es (filed e.path d) =
              subst (λ k. AllowsAs k e es d) file allowed in
            let here : drop (base + at) packed ≡ content e.path ++ tree_bytes content es =
              stands ∙ ap (λ k. bytes_of content k e.path ++ tree_bytes content es) file in
            let next : base + (at + e.size) ≡ base + at + length (content e.path) =
              omega (arith, size) in
            let behind : drop (base + (at + e.size)) packed ≡ tree_bytes content es =
              ap (λ k. drop k packed) next
              ∙ drop-add (base + at) (length (content e.path)) packed
              ∙ ap (drop (length (content e.path))) here
              ∙ drop-append_self (content e.path) (tree_bytes content es) in
            let done =
              unpack_file-standing below sha content fs packed base (tree_bytes content es) at d e
                desc file o here fits small here_allowed in
            let room : base + (at + e.size) ≤ length packed = omega (
              arith,
              ap length here,
              length-append (content e.path) (tree_bytes content es),
              length-drop (base + at) packed,
              size,
              fits,
            ) in
            subst (Restored (e ∷ es) before d)
              (sym (
                unpack_files-regular fs below sha packed base e es before d file
                ∙ ap
                    (λ went.
                      after went (λ u. unpack_files fs below sha packed base es (before + 1)))
                    done))
              (Restored-regular e es before d _ file a (
                unpack_files-Restored packed base es (at + e.size) end (before + 1) (filed e.path d)
                  h ds as_ later behind room small))
      ]

  -- If the entries of a manifest fill the packed stream, pass validate_rel_path, lead below the
  -- destination, and give the size and the SHA-256 of each file's content, no file has the name of a
  -- later file's temporary, the file system refuses none of the calls, and the stream has fewer than
  -- 2^64 bytes, then unpack_tree on a
  -- prefix followed by the files' contents in the order of the entries, with the prefix's length as
  -- base, succeeds, reports the number of files, and leaves every file at the destination with its
  -- content.
  pub unpack_tree_restores :
      (prefix : List ℕ) (es : List Entry) (total_len : ℕ) (d : Destination)
      → Fills es 0 total_len
      → All (Describes below sha content) es
      → AllClear es
      → AllowsDirs below sha content fs es d
      → AllowsFiles below sha content fs es (with_dirs below sha content es d)
      → length (prefix ++ tree_bytes content es) < 2 ^ 64
      → let end = unpack_tree fs below sha (prefix ++ tree_bytes content es) (length prefix) es d in
        (end.1 ≡ ok (count_files es))
        × All (λ e. e.kind ≡ regular → lookup e.path end.0.files ≡ some (content e.path)) es
  unfolding unpack_tree
  unpack_tree_restores prefix es total_len d h ds clear dirs_allowed files_allowed small =
      let packed = prefix ++ tree_bytes content es in
      let made = make_dirs-allowed below sha content fs es d ds dirs_allowed in
      let at : length prefix + 0 ≡ length prefix = omega arith in
      let n : 0 + count_files es ≡ count_files es = omega arith in
      let r =
        unpack_files-Restored packed (length prefix) es 0 total_len 0
          (with_dirs below sha content es d) h ds clear files_allowed
          (ap (λ k. drop k packed) at ∙ drop-append_self prefix (tree_bytes content es))
          (omega (arith, length-append prefix (tree_bytes content es))) small in
      let ends = λ (o : Destination × Result (Unit {0})).
        after o (λ u. unpack_files fs below sha packed (length prefix) es 0) in
      subst
        (λ o.
          ((ends o).1 ≡ ok (count_files es))
          × All (λ e. e.kind ≡ regular → lookup e.path (ends o).0.files ≡ some (content e.path)) es)
        (sym made) (r.all_written ∙ ap ok n, r.there)
