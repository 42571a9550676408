-- ===== src/Fec/Manifest/Stream.antt =====
-- Proofs that `PackedTreeReader` of src/aftp/fec/manifest.rs serves the stream that its manifest
-- lays out.
use agentic_file_transfer.Base.{
  ℕ, ◌+◌, ◌-◌, ◌%◌, ◌^◌, ◌≤◌, ◌<◌, ◌≡◌, refl, ap, sym, ◌∙◌, min, List, [], ◌++◌, true, false, arith,
  length, drop, slice, leb, ltb, ok, Bool-cases, inl, inr, All, ltb→lt, ltb→ge, leb→le, leb→gt,
  le→leb, lt→ltb, ge→ltb, length-take, length-drop, append-nil,
}
use agentic_file_transfer.Base.Positions.{
  slice-append_first, slice-append_second, slice-append_both,
}
use agentic_file_transfer.Fec.Manifest.Merkle.{Manifest}
use agentic_file_transfer.Fec.Manifest.Accepted.{Fills}
use agentic_file_transfer.Fec.Manifest.Packed.{
  Tree, packed_files, new_reader, serve_prefix, serve_files, read_packed,
}
use agentic_file_transfer.Fec.Manifest.Served.{read_files-skip}
use agentic_file_transfer.Fec.Manifest.Contents.{tree_bytes}
use agentic_file_transfer.Fec.Manifest.Packing.{
  sort_by_offset-Chain, packed_files-Packs, IsEntryOnDisk,
}

module _ (root : Tree) (content : List ℕ → List ℕ) where
  -- What the files give from the cursor on.
  serve_files_lem :
      (m : Manifest) (prefix head : List ℕ) (cursor end : ℕ)
      → Fills m.entries 0 m.total_len
      → All (IsEntryOnDisk root content) m.entries
      → length prefix ≤ cursor
      → cursor ≤ end
      → end ≤ length prefix + m.total_len
      → serve_files (new_reader root m prefix) cursor end head
        ≡ ok (head ++ slice (tree_bytes content m.entries) (cursor - length prefix) (end - cursor))
  unfolding serve_files new_reader
  serve_files_lem m prefix head cursor end filled there lo ord hi =
      let (h, disk, bytes) = packed_files-Packs root content m.entries 0 m.total_len filled there in
      let sorted = sort_by_offset-Chain (packed_files m.entries) 0 m.total_len h in
      elim (Bool-cases (leb end cursor)) [
        | inl done ↦
            let none_ : end - cursor ≡ 0 = omega (arith, leb→le _ _ done) in
            rw (done, none_) (ap ok (sym (append-nil head)))
        | inr more ↦
            let from : cursor - length prefix - 0 ≡ cursor - length prefix = omega arith in
            let size : end - length prefix - (cursor - length prefix) ≡ end - cursor =
              omega (arith, lo) in
            let read =
              read_files-skip root content (packed_files m.entries) 0 m.total_len
                (cursor - length prefix) (end - length prefix) h disk (omega arith)
                (omega (arith, ord)) (omega (arith, hi)) in
            rw (more, sorted, read, from, size, bytes) refl
      ]

  -- The prefix gives the window's bytes up to its own end.
  serve_prefix_behind :
      (prefix : List ℕ) (start end : ℕ) → length prefix ≤ start → serve_prefix prefix start end ≡ []
  unfolding serve_prefix
  serve_prefix_behind prefix start end h = rw (ge→ltb _ _ h) refl

  serve_prefix_ahead :
      (prefix : List ℕ) (start end : ℕ)
      → start < length prefix
      → serve_prefix prefix start end ≡ slice prefix start (min end (length prefix) - start)
  unfolding serve_prefix
  serve_prefix_ahead prefix start end h = rw (lt→ltb _ _ h) refl

  -- Whatever the prefix gave, the files give the rest.
  read_packed-served :
      (m : Manifest) (prefix head : List ℕ) (start len : ℕ)
      → length prefix + m.total_len < 2 ^ 64
      → Fills m.entries 0 m.total_len
      → All (IsEntryOnDisk root content) m.entries
      → start + len ≤ length prefix + m.total_len
      → serve_prefix prefix start (start + len) ≡ head
      → length prefix ≤ start + length head
      → length head ≤ len
      → read_packed (new_reader root m prefix) start len
        ≡ ok (
            head
            ++ slice
                (tree_bytes content m.entries)
                (start + length head - length prefix)
                (len - length head))
  unfolding read_packed new_reader
  read_packed-served m prefix head start len small filled there fits gave past short =
      let n : start + len - (start + length head) ≡ len - length head = omega arith in
      let whole : (length prefix + m.total_len) % 2 ^ 64 ≡ length prefix + m.total_len =
        omega (arith, small) in
      rw (whole, ge→ltb _ _ fits, gave)
        (serve_files_lem m prefix head (start + length head) (start + len) filled there past
            (omega (arith, short)) fits
          ∙ ap
              (λ k. ok (
                head
                ++ slice (tree_bytes content m.entries) (start + length head - length prefix) k))
              n)

  read_packed-within :
      (m : Manifest) (prefix : List ℕ) (start len : ℕ)
      → length prefix + m.total_len < 2 ^ 64
      → start < length prefix
      → start + len ≤ length prefix
      → read_packed (new_reader root m prefix) start len ≡ ok (slice prefix start len)
  unfolding read_packed new_reader serve_files
  read_packed-within m prefix start len small ahead short =
      let n : min (start + len) (length prefix) - start ≡ len = omega arith in
      let head = serve_prefix_ahead prefix start (start + len) ahead ∙ ap (slice prefix start) n in
      let long : length (slice prefix start len) ≡ len =
        omega (arith, length-take len (drop start prefix), length-drop start prefix) in
      let fits : ltb (length prefix + m.total_len) (start + len) ≡ false =
        ge→ltb _ _ (omega arith) in
      let whole : leb (start + len) (start + len) ≡ true = le→leb _ _ (omega arith) in
      let total : (length prefix + m.total_len) % 2 ^ 64 ≡ length prefix + m.total_len =
        omega (arith, small) in
      rw (total, fits, head, long, whole) refl

  read_packed-ahead :
      (m : Manifest) (prefix : List ℕ) (start len : ℕ)
      → length prefix + m.total_len < 2 ^ 64
      → Fills m.entries 0 m.total_len
      → All (IsEntryOnDisk root content) m.entries
      → start + len ≤ length prefix + m.total_len
      → start < length prefix
      → read_packed (new_reader root m prefix) start len
        ≡ ok (slice (prefix ++ tree_bytes content m.entries) start len)
  read_packed-ahead m prefix start len small filled there fits ahead =
      let stream = tree_bytes content m.entries in
      elim (Bool-cases (leb (start + len) (length prefix))) [
        | inl short ↦
            read_packed-within m prefix start len small ahead (leb→le _ _ short)
            ∙ ap ok (sym (slice-append_first prefix stream start len (leb→le _ _ short)))
        | inr beyond ↦
            let past : length prefix < start + len = leb→gt _ _ beyond in
            let n : min (start + len) (length prefix) - start ≡ length prefix - start =
              omega (arith, past) in
            let head : serve_prefix prefix start (start + len)
                ≡ slice prefix start (length prefix - start) =
              serve_prefix_ahead prefix start (start + len) ahead ∙ ap (slice prefix start) n in
            let long : length (slice prefix start (length prefix - start)) ≡ length prefix - start =
              omega (
                arith,
                length-take (length prefix - start) (drop start prefix),
                length-drop start prefix,
              ) in
            let at : start + length (slice prefix start (length prefix - start)) - length prefix
                ≡ 0 =
              omega (arith, long) in
            let left : len - length (slice prefix start (length prefix - start))
                ≡ start + len - length prefix =
              omega (arith, long) in
            read_packed-served m prefix (slice prefix start (length prefix - start)) start len small
              filled there fits head (omega (arith, long)) (omega (arith, long, past))
            ∙ ap
                (λ k. ok (
                  slice prefix start (length prefix - start)
                  ++ slice stream k (len - length (slice prefix start (length prefix - start)))))
                at
            ∙ ap (λ k. ok (slice prefix start (length prefix - start) ++ slice stream 0 k)) left
            ∙ ap ok (
                sym (slice-append_both prefix stream start len (omega arith) (omega (arith, past))))
      ]

  -- If the entries of a manifest fill the packed stream, its files are on disk with the sizes it
  -- gives, and the prefix and the files have fewer than 2^64 bytes together, then read_block of the reader made for the manifest and a prefix returns, for every
  -- window within the prefix and the files together, exactly that window of the prefix followed by
  -- the contents of the files in the order of the entries, wherever it starts and ends.
  pub read_packed_lem :
      (m : Manifest) (prefix : List ℕ) (start len : ℕ)
      → length prefix + m.total_len < 2 ^ 64
      → Fills m.entries 0 m.total_len
      → All (IsEntryOnDisk root content) m.entries
      → start + len ≤ length prefix + m.total_len
      → read_packed (new_reader root m prefix) start len
        ≡ ok (slice (prefix ++ tree_bytes content m.entries) start len)
  read_packed_lem m prefix start len small filled there fits =
      let stream = tree_bytes content m.entries in
      elim (Bool-cases (ltb start (length prefix))) [
        | inr behind ↦
            let lo : length prefix ≤ start = ltb→ge _ _ behind in
            let at : start + 0 - length prefix ≡ start - length prefix = omega arith in
            let n : len - 0 ≡ len = omega arith in
            read_packed-served m prefix [] start len small filled there fits
              (serve_prefix_behind prefix start (start + len) lo) (omega (arith, lo)) (omega arith)
            ∙ rw (at, n) (ap ok (sym (slice-append_second prefix stream start len lo)))
        | inl ahead ↦
            read_packed-ahead m prefix start len small filled there fits (ltb→lt _ _ ahead)
      ]
