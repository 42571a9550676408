-- ===== src/Fec/Manifest/Reading.antt =====
-- Proofs on how `unpack_tree` of src/aftp/fec/manifest.rs reads one file.
use agentic_file_transfer.Base.{
  ℕ, zero, suc, ◌+◌, ◌-◌, ◌%◌, ◌^◌, ◌≤◌, ◌<◌, ◌≡◌, refl, ap, ◌∙◌, min, List, [], ◌∷◌, ◌++◌, Bool,
  true, false, arith, length, take, drop, slice, ltb, bytes_eq, bytes_eq_refl, none, Result, ok,
  Bool-cases, inl, inr, All, ltb→lt, ltb→ge, ge→ltb, take-append_self, drop-add, length-append,
  length-drop,
}
use agentic_file_transfer.Fec.Paths.{validate_rel_path}
use agentic_file_transfer.Fec.Manifest.Merkle.{regular, Entry}
use agentic_file_transfer.Fec.Manifest.Packed.{read_exact}
use agentic_file_transfer.Fec.Manifest.Unpack.{safe_join, read_chunks}
use agentic_file_transfer.Fec.Manifest.Destination.{
  Destination, FileSystem, Action, after, put, drop_file,
}
use agentic_file_transfer.Fec.Manifest.Unpacking.{
  for_kind, temporary, parent, note_dir, make_dir, make_dirs, create_temporary, filled,
  fill_temporary, rename_file, check_file, unpack_to, unpack_file,
}
use agentic_file_transfer.Fec.Manifest.Traces.{kind_cases}

slice-add : (xs : List ℕ) (i a b : ℕ) → slice xs i a ++ slice xs (i + a) b ≡ slice xs i (a + b)
slice-add xs i a b = ap (λ t. slice xs i a ++ take b t) (drop-add i a xs) ∙ take_add a b (drop i xs)
  where
    take_add : (a b : ℕ) (ys : List ℕ) → take a ys ++ take b (drop a ys) ≡ take (a + b) ys
    take_add zero b ys = let e : 0 + b ≡ b = omega arith in rw e refl
    take_add (suc a) zero [] = let e : suc a + 0 ≡ suc a = omega arith in rw e refl
    take_add (suc a) (suc b) [] = let e : suc a + suc b ≡ suc (a + suc b) = omega arith in rw e refl
    take_add (suc a) b (y ∷ ys) =
        let e : suc a + b ≡ suc (a + b) = omega arith in rw e (ap (λ t. y ∷ t) (take_add a b ys))

read_chunks-whole :
    (packed : List ℕ) (fuel pos remaining : ℕ)
    → remaining ≤ fuel
    → pos + remaining ≤ length packed
    → read_chunks packed fuel pos remaining ≡ ok (slice packed pos remaining)
unfolding read_chunks read_exact
read_chunks-whole packed zero pos remaining enough fits =
    let e : remaining ≡ 0 = omega arith in rw e refl
read_chunks-whole packed (suc fuel) pos remaining enough fits =
    elim (Bool-cases (ltb 0 remaining)) [
      | inr none_ ↦ let e : remaining ≡ 0 = omega (arith, ltb→ge _ _ none_) in rw e refl
      | inl some_ ↦
          let more = ltb→lt _ _ some_ in
          let want = min remaining 1_048_576 in
          let first : ltb (length packed) (pos + want) ≡ false = ge→ltb _ _ (omega (arith, fits)) in
          let rest =
            read_chunks-whole packed fuel (pos + want) (remaining - want)
              (omega (arith, enough, more)) (omega (arith, fits)) in
          let whole : want + (remaining - want) ≡ remaining = omega arith in
          rw (some_, first, rest)
            (ap ok (slice-add packed pos want (remaining - want) ∙ ap (slice packed pos) whole))
    ]

-- Where the bytes stand, they are read.
read_chunks-standing :
    (packed bytes rest : List ℕ) (pos : ℕ)
    → drop pos packed ≡ bytes ++ rest
    → pos ≤ length packed
    → read_chunks packed (length bytes) pos (length bytes) ≡ ok bytes
read_chunks-standing packed bytes rest pos stands fits =
    read_chunks-whole packed (length bytes) pos (length bytes) (omega arith)
      (omega (arith, ap length stands, length-append bytes rest, length-drop pos packed, fits))
    ∙ ap (λ t. ok (take (length bytes) t)) stands
    ∙ ap ok (take-append_self bytes rest)

module _ (below : List ℕ → Bool) (sha : List ℕ → List ℕ) (content : List ℕ → List ℕ) where
  -- The entry describes the file of that content.
  abbrev pub Describes : Entry → Type 0
  Describes e =
      (validate_rel_path e.path ≡ ok tt)
      × (below e.path ≡ true)
      × (e.kind ≡ regular → (length (content e.path) ≡ e.size) × (sha (content e.path) ≡ e.sha256))

  safe_join-inside :
      (rel : List ℕ)
      → validate_rel_path rel ≡ ok tt
      → below rel ≡ true
      → safe_join below rel ≡ ok rel
  unfolding safe_join
  safe_join-inside rel valid inside = rw (valid, inside) refl

  -- The destination with one more directory, with the directories of the entries, and with a file
  -- that was written by way of its temporary.
  abbrev pub with_dir : List ℕ → Destination → Destination
  with_dir target d = record d { dirs = target ∷ d.dirs }

  abbrev pub with_dirs : List Entry → Destination → Destination
  with_dirs [] d = d
  with_dirs (e ∷ es) d = for_kind e.kind (with_dirs es d) (with_dirs es (with_dir e.path d))

  abbrev pub written : List ℕ → Destination → Destination
  written target d =
      put (temporary target) (content target)
        (put (temporary target) [] (with_dir (parent target) d))

  abbrev pub with_file : List ℕ → Destination → Destination
  with_file target d = put target (content target) (drop_file (temporary target) (written target d))

  module _ (fs : FileSystem) where
    -- The file system refuses none of the directories of the entries.
    abbrev pub AllowsDirs : List Entry → Destination → Type 0
    AllowsDirs [] d = Unit
    AllowsDirs (e ∷ es) d =
        for_kind e.kind (AllowsDirs es d)
          ((fs.create_dir_all d e.path ≡ ok tt) × AllowsDirs es (with_dir e.path d))

    -- It refuses none of the calls for a file.
    pub record AllowsFile (target : List ℕ) (d : Destination) : Type 0 where
      pub makes_parent : fs.create_dir_all d (parent target) ≡ ok tt
      pub creates : fs.create (with_dir (parent target) d) (temporary target) ≡ ok tt
      pub writes :
          fs.interrupted (put (temporary target) [] (with_dir (parent target) d)) (temporary target)
          ≡ none
      pub renames : fs.rename (written target d) (temporary target) target ≡ ok tt

    abbrev pub AllowsFiles : List Entry → Destination → Type 0
    AllowsFiles [] d = Unit
    AllowsFiles (e ∷ es) d =
        for_kind e.kind (AllowsFile e.path d × AllowsFiles es (with_file e.path d))
          (AllowsFiles es d)

    after-ok :
        {A B : Type 0} {o : Destination × Result A} (f : A → Action B) {d : Destination} {a : A}
        → o ≡ (d, ok a)
        → after o f ≡ f a d
    after-ok f h = ap (λ o. after o f) h

    make_dir-allowed :
        (target : List ℕ) (d : Destination)
        → fs.create_dir_all d target ≡ ok tt
        → make_dir fs below target d ≡ (with_dir target d, ok tt)
    unfolding make_dir
    make_dir-allowed target d h = ap (λ r. after (d, r) (λ u. note_dir fs below target)) h

    pub make_dirs-allowed :
        (es : List Entry) (d : Destination)
        → All Describes es
        → AllowsDirs es d
        → make_dirs fs below es d ≡ (with_dirs es d, ok tt)
    unfolding make_dirs
    make_dirs-allowed [] d h allowed = refl
    make_dirs-allowed (e ∷ es) d ((valid, inside, file), h) allowed = elim (kind_cases e.kind) [
      | inl same ↦ rw same (make_dirs-allowed es d h (rw same at allowed))
      | inr same ↦
          let (made, later) : (fs.create_dir_all d e.path ≡ ok tt)
              × AllowsDirs es (with_dir e.path d) =
            rw same at allowed in
          let joined = safe_join-inside e.path valid inside in
          rw (same, joined)
            (after-ok (λ u. make_dirs fs below es) (make_dir-allowed e.path d made)
              ∙ make_dirs-allowed es (with_dir e.path d) h later)
    ]

    create_temporary-allowed :
        (tmp : List ℕ) (d : Destination)
        → fs.create d tmp ≡ ok tt
        → create_temporary fs below tmp d ≡ (put tmp [] d, ok tt)
    unfolding create_temporary
    create_temporary-allowed tmp d h = ap (λ r. after (d, r) (λ u d. (put tmp [] d, ok tt))) h

    module _ (packed : List ℕ) (data_base : ℕ) where
      fill_temporary-allowed :
          (e : Entry) (tmp bytes : List ℕ) (d : Destination)
          → fs.interrupted d tmp ≡ none
          → read_chunks packed e.size ((data_base + e.offset) % 2 ^ 64) e.size ≡ ok bytes
          → fill_temporary fs below sha packed data_base e tmp d ≡ (put tmp bytes d, ok bytes)
      unfolding fill_temporary filled
      fill_temporary-allowed e tmp bytes d writes read =
          ap
            (λ o.
              filled fs below sha packed data_base tmp o
                (read_chunks packed e.size ((data_base + e.offset) % 2 ^ 64) e.size) d)
            writes
          ∙ ap (λ r. filled fs below sha packed data_base tmp none r d) read

      check_file-allowed :
          (e : Entry) (target bytes : List ℕ) (d : Destination)
          → bytes_eq (sha bytes) e.sha256 ≡ true
          → fs.rename d (temporary target) target ≡ ok tt
          → check_file fs below sha packed data_base e target bytes d
            ≡ (put target bytes (drop_file (temporary target) d), ok tt)
      unfolding check_file rename_file
      check_file-allowed e target bytes d right renames = rw right (
          ap (λ r. after (d, r) (λ u d. (put target bytes (drop_file (temporary target) d), ok tt)))
            renames)

      pub unpack_file-standing :
          (rest : List ℕ) (at : ℕ) (d : Destination) (e : Entry)
          → Describes e
          → e.kind ≡ regular
          → e.offset ≡ at
          → drop (data_base + at) packed ≡ content e.path ++ rest
          → data_base + at ≤ length packed
          → length packed < 2 ^ 64
          → AllowsFile e.path d
          → unpack_file fs below sha packed data_base e d ≡ (with_file e.path d, ok tt)
      unfolding unpack_file unpack_to
      unpack_file-standing rest at d e (valid, inside, file) same o stands fits small allowed =
          let (size, hash) = file same in
          let tmp = temporary e.path in
          let joined = safe_join-inside e.path valid inside in
          let read : read_chunks packed e.size (data_base + e.offset) e.size ≡ ok (content e.path) =
            rw (← size, o)
              (read_chunks-standing packed (content e.path) rest (data_base + at) stands fits) in
          let seek : (data_base + e.offset) % 2 ^ 64 ≡ data_base + e.offset =
            omega (arith, o, fits, small) in
          let right : bytes_eq (sha (content e.path)) e.sha256 ≡ true =
            ap (λ t. bytes_eq t e.sha256) hash ∙ bytes_eq_refl e.sha256 in
          let check = check_file fs below sha packed data_base e e.path in
          let fill = λ (d : Destination).
            after (fill_temporary fs below sha packed data_base e tmp d) check in
          let create = λ (d : Destination). after (create_temporary fs below tmp d) (λ u. fill) in
          let d0 = with_dir (parent e.path) d in
          after-ok (unpack_to fs below sha packed data_base e) (ap (λ r. (d, r)) joined)
          ∙ after-ok (λ u. create) (make_dir-allowed (parent e.path) d allowed.makes_parent)
          ∙ after-ok (λ u. fill) (create_temporary-allowed tmp d0 allowed.creates)
          ∙ after-ok check (
              fill_temporary-allowed e tmp (content e.path) (put tmp [] d0) allowed.writes
                (ap (λ k. read_chunks packed e.size k e.size) seek ∙ read))
          ∙ check_file-allowed e e.path (content e.path) (written e.path d) right allowed.renames
