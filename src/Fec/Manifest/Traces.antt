-- ===== src/Fec/Manifest/Traces.antt =====
-- Proofs on what one round of `unpack_tree` of src/aftp/fec/manifest.rs leaves at the destination.
use agentic_file_transfer.Base.{
  none≢some, ℕ, ◌≡◌, ◌⊎◌, inl, inr, refl, ap, sym, subst, ◌∙◌, List, [], ◌∷◌, Bool, true, Option,
  none, some, bytes_eq, bytes_eq→eq, Result, ok, err, AftError, Result-cases, Bool-cases,
}
use agentic_file_transfer.Base.Fallible.{>>=-eq-ok}
use agentic_file_transfer.Base.Table.{
  lookup, insert, remove, lookup-insert, lookup-remove, bytes_key,
}
use agentic_file_transfer.Base.Table
use agentic_file_transfer.Frame.Yields.{ok_inj}
use agentic_file_transfer.Fec.Paths.{validate_rel_path}
use agentic_file_transfer.Fec.Manifest.Merkle.{EntryKind, regular, dir, Entry}
use agentic_file_transfer.Fec.Manifest.Unpack.{safe_join}
use agentic_file_transfer.Fec.Manifest.Destination.{
  Destination, FileSystem, after, put, drop_file, lift,
}
use agentic_file_transfer.Fec.Manifest.Unpacking.{
  temporary, parent, make_dir, note_dir, create_temporary, filled, fill_temporary, discard,
  rename_file, check_file, unpack_to, unpack_file,
}

-- One of the entries satisfies `P`.
abbrev pub Some : (Entry → Type 0) → List Entry → Type 0
Some P [] = ⊥
Some P (e ∷ es) = P e ⊎ Some P es

pub kind_cases : (k : EntryKind) → (k ≡ regular) ⊎ (k ≡ dir)
kind_cases regular = inl refl
kind_cases dir = inr refl

abbrev pub Failed : {A : Type 0} → Result A → Type 0
Failed (ok a) = ⊥
Failed (err e) = Unit

-- What is found at `now` was there, or stands under this name.
abbrev Near : Destination → List ℕ → List ℕ → List ℕ → Destination → Type 0
Near was tmp path bytes now =
    lookup path now.files ≡ some bytes → (lookup path was.files ≡ some bytes) ⊎ (path ≡ tmp)

put-Near :
    (was now : Destination) (tmp path bytes written : List ℕ)
    → Near was tmp path bytes now
    → Near was tmp path bytes (put tmp written now)
put-Near was now tmp path bytes written near found = elim (Bool-cases (Table.◌==◌ path tmp)) [
  | inl here ↦ inr ((bytes_key.same_iff path tmp).0 here)
  | inr other ↦ near (sym (rw other refl) ∙ sym (lookup-insert path tmp written now.files) ∙ found)
]

-- Where the name is dropped, nothing stands under it.
drop_file-Near :
    (was now : Destination) (tmp path bytes : List ℕ)
    → Near was tmp path bytes now
    → lookup path (drop_file tmp now).files ≡ some bytes
    → lookup path was.files ≡ some bytes
drop_file-Near was now tmp path bytes near found = elim (Bool-cases (Table.◌==◌ path tmp)) [
  | inl here ↦ none≢some (sym (rw here refl) ∙ sym (lookup-remove path tmp now.files) ∙ found)
  | inr other ↦ elim (near (sym (rw other refl) ∙ sym (lookup-remove path tmp now.files) ∙ found)) [
    | inl old ↦ old
    | inr here ↦ cc (other, (bytes_key.same_iff path tmp).1 here)
  ]
]

module _ (below : List ℕ → Bool) where
  -- The entry is a file whose path is valid and lies below the destination.
  abbrev pub IsPlaced : Entry → Type 0
  IsPlaced e = (e.kind ≡ regular) × (validate_rel_path e.path ≡ ok tt) × (below e.path ≡ true)

  -- The path is that of the entry's temporary.
  abbrev pub IsLeft : List ℕ → Entry → Type 0
  IsLeft path e = IsPlaced e × (temporary e.path ≡ path)

  -- The path and these bytes are those of the entry.
  abbrev pub IsOf : (List ℕ → List ℕ) → List ℕ → List ℕ → Entry → Type 0
  IsOf sha path bytes e = IsPlaced e × (e.path ≡ path) × (sha bytes ≡ e.sha256)

  safe_join-ok :
      (rel target : List ℕ)
      → safe_join below rel ≡ ok target
      → (rel ≡ target) × (validate_rel_path rel ≡ ok tt) × (below rel ≡ true)
  unfolding safe_join
  safe_join-ok rel target h =
      let (u, valid, joined) = >>=-eq-ok (validate_rel_path rel) _ h in
      elim (Bool-cases (below rel)) [
        | inl inside ↦ (ok_inj (rw inside at joined), valid, inside)
        | inr outside ↦ cc (rw outside at joined)
      ]

module _ (fs : FileSystem) (below : List ℕ → Bool) (sha : List ℕ → List ℕ) (packed : List ℕ)
    (data_base : ℕ) (path bytes : List ℕ) where
  -- What is found after a step on the entry.
  abbrev pub Found : Destination → Entry → Destination × Result (Unit {0}) → Type 0
  Found was e outcome =
      lookup path outcome.0.files ≡ some bytes
      → (lookup path was.files ≡ some bytes)
        ⊎ (IsOf below sha path bytes e ⊎ (IsLeft below path e × Failed outcome.1))

  module _ (was : Destination) (e : Entry) (placed : IsPlaced below e) where
    abbrev tmp_of : List ℕ
    tmp_of = temporary e.path

    left_there :
        (now : Destination) (bad : AftError)
        → Near was tmp_of path bytes now
        → Found was e (now, err bad)
    left_there now bad near found = elim (near found) [
      | inl old ↦ inl old
      | inr here ↦ inr (inr ((placed, sym here), tt))
    ]

    discard-Found :
        (now : Destination) (bad : AftError) (answer : Result (Unit {0}))
        → Near was tmp_of path bytes now
        → Found was e
            (after (discard fs below sha packed data_base tmp_of answer now) (λ u. lift (err bad)))
    unfolding discard
    discard-Found now bad (ok u) near found =
        inl (drop_file-Near was now tmp_of path bytes near found)
    discard-Found now bad (err ignored) near found = left_there now bad near found

    rename-Found :
        (now : Destination) (read : List ℕ) (answer : Result (Unit {0}))
        → Near was tmp_of path bytes now
        → sha read ≡ e.sha256
        → Found was e (after (now, answer) (λ u d. (put e.path read (drop_file tmp_of d), ok tt)))
    rename-Found now read (err bad) near hash found = left_there now bad near found
    rename-Found now read (ok u) near hash found = elim (Bool-cases (Table.◌==◌ path e.path)) [
      | inr other ↦ inl (
          drop_file-Near was now tmp_of path bytes near (
            sym (rw other refl)
            ∙ sym (lookup-insert path e.path read (drop_file tmp_of now).files)
            ∙ found))
      | inl here ↦
          let same : some read ≡ some bytes =
            sym (rw here refl)
            ∙ sym (lookup-insert path e.path read (drop_file tmp_of now).files)
            ∙ found in
          inr (
            inl (
              placed,
              sym ((bytes_key.same_iff path e.path).0 here),
              ap sha (sym (cc same)) ∙ hash,
            ))
    ]

    check_file-Found :
        (now : Destination) (read : List ℕ)
        → Near was tmp_of path bytes now
        → Found was e (check_file fs below sha packed data_base e e.path read now)
    unfolding check_file rename_file
    check_file-Found now read near = elim (Bool-cases (bytes_eq (sha read) e.sha256)) [
      | inr wrong ↦ rw wrong (discard-Found now _ (fs.remove_file now tmp_of) near)
      | inl right ↦
          rw right
            (rename-Found now read (fs.rename now tmp_of e.path) near (bytes_eq→eq _ _ right))
    ]

    filled-Found :
        (now : Destination) (stop : Option AftError) (read : Result (List ℕ))
        → Near was tmp_of path bytes now
        → Found was e (
            after
              (filled fs below sha packed data_base tmp_of stop read now)
              (check_file fs below sha packed data_base e e.path))
    unfolding filled
    filled-Found now (some bad) read near =
        left_there (put tmp_of (fs.left_behind now tmp_of) now) bad
          (put-Near was now tmp_of path bytes _ near)
    filled-Found now none (err bad) near =
        left_there (put tmp_of (fs.left_behind now tmp_of) now) bad
          (put-Near was now tmp_of path bytes _ near)
    filled-Found now none (ok read) near =
        check_file-Found (put tmp_of read now) read (put-Near was now tmp_of path bytes read near)

    created-Found :
        (now : Destination) (answer : Result (Unit {0}))
        → Near was tmp_of path bytes now
        → Found was e (
            after (after (now, answer) (λ u d. (put tmp_of [] d, ok tt))) (λ u d.
              after
                (fill_temporary fs below sha packed data_base e tmp_of d)
                (check_file fs below sha packed data_base e e.path)))
    unfolding fill_temporary
    created-Found now (err bad) near = left_there now bad near
    created-Found now (ok u) near =
        filled-Found (put tmp_of [] now) _ _ (put-Near was now tmp_of path bytes [] near)

    made-Found :
        (answer : Result (Unit {0}))
        → Found was e (
            after (after (was, answer) (λ u. note_dir fs below (parent e.path))) (λ u d.
              after (create_temporary fs below tmp_of d) (λ u d.
                after
                  (fill_temporary fs below sha packed data_base e tmp_of d)
                  (check_file fs below sha packed data_base e e.path))))
    unfolding create_temporary
    made-Found (err bad) found = inl found
    made-Found (ok u) found =
        let now = (note_dir fs below (parent e.path) was).0 in
        created-Found now (fs.create now tmp_of) (λ there. inl there) found

    unpack_to-Found : Found was e (unpack_to fs below sha packed data_base e e.path was)
    unfolding unpack_to make_dir
    unpack_to-Found = made-Found (fs.create_dir_all was (parent e.path))

  pub unpack_file-Found :
      (was : Destination) (e : Entry)
      → e.kind ≡ regular
      → Found was e (unpack_file fs below sha packed data_base e was)
  unfolding unpack_file
  unpack_file-Found was e file = elim (Result-cases (safe_join below e.path)) [
    | inr (bad, refused) ↦ rw refused (λ found. inl found)
    | inl (target, joined) ↦
        let (same, valid, inside) = safe_join-ok below e.path target joined in
        rw joined (
          subst (λ t. Found was e (unpack_to fs below sha packed data_base e t was)) same
            (unpack_to-Found was e (file, valid, inside)))
  ]
