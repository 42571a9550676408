-- ===== src/Fec/Manifest/Contents.antt =====
-- The bytes that the files of a manifest put into the packed stream of src/aftp/fec/manifest.rs.
use agentic_file_transfer.Base.{List, [], ◌∷◌, ◌++◌, ℕ}
use agentic_file_transfer.Fec.Manifest.Merkle.{EntryKind, regular, dir, Entry}

module _ (content : List ℕ → List ℕ) where
  abbrev pub bytes_of : EntryKind → List ℕ → List ℕ
  bytes_of regular path = content path
  bytes_of dir path = []

  -- The contents of the files, in the order of the entries.
  abbrev pub tree_bytes : List Entry → List ℕ
  tree_bytes [] = []
  tree_bytes (e ∷ es) = bytes_of e.kind e.path ++ tree_bytes es
