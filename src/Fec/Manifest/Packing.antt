-- ===== src/Fec/Manifest/Packing.antt =====
-- Proofs on the file list of `PackedTreeReader` of src/aftp/fec/manifest.rs.
use agentic_file_transfer.Base.{
  subst, ℕ, ◌+◌, ◌≤◌, ◌≡◌, refl, ap, ◌∙◌, List, [], ◌∷◌, ◌++◌, true, arith, length, leb, ltb, ok,
  Bool-cases, inl, inr, All, ltb→lt, ltb→ge, le→leb,
}
use agentic_file_transfer.Fec.Manifest.Merkle.{EntryKind, regular, dir, Entry}
use agentic_file_transfer.Fec.Manifest.Accepted.{Stands, Fills}
use agentic_file_transfer.Fec.Manifest.Packed.{
  PackedFile, Tree, is_packed, packed_files, insert_by_offset, sort_by_offset,
}
use agentic_file_transfer.Fec.Manifest.Served.{Chain, IsOnDisk, joined}
use agentic_file_transfer.Fec.Manifest.Contents.{tree_bytes}

insert_by_offset-first :
    (f : PackedFile) (fs : List PackedFile) (at end : ℕ)
    → f.offset ≤ at
    → Chain fs at end
    → insert_by_offset f fs ≡ f ∷ fs
unfolding insert_by_offset
insert_by_offset-first f [] at end lo h = refl
insert_by_offset-first f (g ∷ gs) at end lo (o, pos, h) =
    let first : leb f.offset g.offset ≡ true = le→leb _ _ (omega (arith, o)) in rw first refl

pub sort_by_offset-Chain :
    (fs : List PackedFile) (at end : ℕ) → Chain fs at end → sort_by_offset fs ≡ fs
unfolding sort_by_offset
sort_by_offset-Chain [] at end h = refl
sort_by_offset-Chain (f ∷ fs) at end (o, pos, h) =
    ap (insert_by_offset f) (sort_by_offset-Chain fs (at + f.size) end h)
    ∙ insert_by_offset-first f fs (at + f.size) end (omega (arith, o)) h

module _ (root : Tree) (content : List ℕ → List ℕ) where
  -- The file of an entry is on disk as the manifest says; a directory has no bytes there.
  abbrev pub IsThere : EntryKind → Entry → Type 0
  IsThere regular e = (root e.path ≡ ok (content e.path)) × (length (content e.path) ≡ e.size)
  IsThere dir e = Unit

  abbrev pub IsEntryOnDisk : Entry → Type 0
  IsEntryOnDisk e = IsThere e.kind e

  nil_of_length : (xs : List ℕ) → length xs ≤ 0 → [] ≡ xs
  nil_of_length [] h = refl
  nil_of_length (x ∷ xs) h = absurd (omega arith)

  -- What holds of the packed files of entries that fill the stream.
  abbrev pub Packs : List Entry → ℕ → ℕ → Type 0
  Packs es at end =
      Chain (packed_files es) at end
      × All (IsOnDisk root content) (packed_files es)
      × (joined root content (packed_files es) ≡ tree_bytes content es)

  packed_files-cons :
      (k : EntryKind) (e : Entry) (es : List Entry) (at end : ℕ)
      → k ≡ e.kind
      → Stands k e at
      → IsThere k e
      → Packs es (at + e.size) end
      → Packs (e ∷ es) at end
  unfolding packed_files is_packed
  packed_files-cons dir e es at end same (empty, o) there (h, disk, bytes) =
      let stays : at + e.size ≡ at = omega (arith, empty) in
      rw (← same) (subst (λ t. Chain (packed_files es) t end) stays h, disk, bytes)
  packed_files-cons regular e es at end same o (found, long) (h, disk, bytes) =
      elim (Bool-cases (ltb 0 e.size)) [
        | inl some_ ↦
            rw (← same, some_)
              ((o, ltb→lt _ _ some_, h), ((found, long), disk), ap (λ t. content e.path ++ t) bytes)
        | inr none_ ↦
            let stays : at + e.size ≡ at = omega (arith, ltb→ge _ _ none_) in
            let empty : [] ≡ content e.path =
              nil_of_length (content e.path) (omega (arith, long, ltb→ge _ _ none_)) in
            rw (← same, none_)
              (
                subst (λ t. Chain (packed_files es) t end) stays h,
                disk,
                bytes ∙ ap (λ t. t ++ tree_bytes content es) empty,
              )
      ]

  pub packed_files-Packs :
      (es : List Entry) (at end : ℕ) → Fills es at end → All IsEntryOnDisk es → Packs es at end
  unfolding packed_files
  packed_files-Packs [] at end h there = (h, tt, refl)
  packed_files-Packs (e ∷ es) at end (s, h) (t, there) =
      packed_files-cons e.kind e es at end refl s t
        (packed_files-Packs es (at + e.size) end h there)
