-- ===== src/Fec/Manifest/Shipped.antt =====
-- Proofs on a tree that is packed by `PackedTreeReader` and taken apart by `read_manifest_prefix` and
-- `unpack_tree` of src/aftp/fec/manifest.rs.
use agentic_file_transfer.Base.{
  ℕ, ◌+◌, ◌^◌, ◌≤◌, ◌<◌, ◌≡◌, ap, ◌∙◌, List, [], ◌∷◌, ◌++◌, Bool, some, arith, length, take,
  length-append, take_all, ok, All,
}
use agentic_file_transfer.Base.Table.{lookup, bytes_key}
use agentic_file_transfer.Fec.Manifest.Merkle.{EntryKind, regular, dir, Entry, Manifest}
use agentic_file_transfer.Fec.Manifest.Accepted.{Stands, Fills, IsSafe}
use agentic_file_transfer.Fec.Manifest.EntryWire.{IsWireEntry}
use agentic_file_transfer.Fec.Manifest.Packed.{Tree, manifest_prefix, new_reader, read_packed}
use agentic_file_transfer.Fec.Manifest.Contents.{bytes_of, tree_bytes}
use agentic_file_transfer.Fec.Manifest.Packing.{IsThere, IsEntryOnDisk}
use agentic_file_transfer.Fec.Manifest.Stream.{read_packed_lem}
use agentic_file_transfer.Fec.Manifest.Unpack.{read_manifest_prefix}
use agentic_file_transfer.Fec.Manifest.Destination.{Destination, FileSystem}
use agentic_file_transfer.Fec.Manifest.Unpacking.{unpack_tree}
use agentic_file_transfer.Fec.Manifest.Prefixed.{read_manifest_prefix-manifest_prefix}
use agentic_file_transfer.Fec.Manifest.Reading.{Describes, AllowsDirs, AllowsFiles, with_dirs}
use agentic_file_transfer.Fec.Manifest.Unpacked.{AllClear, count_files, unpack_tree_restores}

module _ (root : Tree) (content : List ℕ → List ℕ) where
  length-bytes_of :
      (k : EntryKind) (e : Entry) (at : ℕ)
      → Stands k e at
      → IsThere root content k e
      → length (bytes_of content k e.path) ≡ e.size
  length-bytes_of regular e at s t = t.1
  length-bytes_of dir e at s t = omega (arith, s.0)

  length-tree_bytes :
      (es : List Entry) (at end : ℕ)
      → Fills es at end
      → All (IsEntryOnDisk root content) es
      → at + length (tree_bytes content es) ≡ end
  length-tree_bytes [] at end h there = omega (arith, h)
  length-tree_bytes (e ∷ es) at end (s, h) (t, there) =
      let rest = length-tree_bytes es (at + e.size) end h there in
      let here = length-bytes_of e.kind e at s t in
      omega
        (arith, rest, here, length-append (bytes_of content e.kind e.path) (tree_bytes content es))

  -- A tree arrives as it was sent: if a manifest is safe to unpack and fits its wire form, and its
  -- files are on disk as it says, with the SHA-256 it gives, then reading the whole packed stream
  -- succeeds, read_manifest_prefix finds the manifest in it and where the files begin, and
  -- unpack_tree from there succeeds, reports the number of files, and leaves every file at the
  -- destination with its content, if the Merkle root has 32 bytes, the manifest is encoded in 64
  -- MiB at most, it and the files have fewer than 2^64 bytes together, its paths lead below the
  -- destination, no file has the name of a later file's temporary, and the file system refuses none
  -- of the calls for the directories and the files.
  pub ship_tree :
      (fs : FileSystem) (below : List ℕ → Bool) (sha : List ℕ → List ℕ) (m : Manifest)
      (d : Destination) {prefix : List ℕ}
      → IsSafe sha m
      → All IsWireEntry m.entries
      → length m.merkle_root ≡ 32
      → length prefix ≤ 8 + 67_108_864
      → length prefix + m.total_len < 2 ^ 64
      → manifest_prefix m ≡ some prefix
      → All (IsEntryOnDisk root content) m.entries
      → All (Describes below sha content) m.entries
      → AllClear m.entries
      → AllowsDirs below sha content fs m.entries d
      → AllowsFiles below sha content fs m.entries (with_dirs below sha content m.entries d)
      → (packed : List ℕ) × (read_packed (new_reader root m prefix) 0 (length prefix + m.total_len)
          ≡ ok packed)
        × (read_manifest_prefix sha packed ≡ ok (m, length prefix))
        × ((unpack_tree fs below sha packed (length prefix) m.entries d).1
            ≡ ok (count_files m.entries))
        × All
            (λ e.
              e.kind ≡ regular
              → lookup e.path (unpack_tree fs below sha packed (length prefix) m.entries d).0.files
                ≡ some (content e.path))
            m.entries
  ship_tree fs below sha m d {prefix} safe wire long few small built disk describes clear
        dirs_allowed files_allowed =
      let stream = tree_bytes content m.entries in
      let size : length prefix + m.total_len ≡ length (prefix ++ stream) = omega (
        arith,
        length-tree_bytes m.entries 0 m.total_len safe.filled disk,
        length-append prefix stream,
      ) in
      let (counted, there) =
        unpack_tree_restores fs below sha content prefix m.entries m.total_len d safe.filled
          describes clear dirs_allowed files_allowed (omega (arith, size, small)) in
      (
        prefix ++ stream,
        read_packed_lem root content m prefix 0 (length prefix + m.total_len) small safe.filled disk
              (omega arith)
            ∙ ap (λ k. ok (take k (prefix ++ stream))) size
            ∙ ap ok (take_all (prefix ++ stream)),
        read_manifest_prefix-manifest_prefix sha m stream safe wire long few built,
        counted,
        there,
      )
