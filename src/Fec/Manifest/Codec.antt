-- ===== src/Fec/Manifest/Codec.antt =====
-- The wire form of a manifest, src/aftp/fec/manifest.rs. SHA-256 is a parameter.
use agentic_file_transfer.Base.{
  ℕ, zero, suc, ◌+◌, ◌%◌, ◌^◌, List, [], ◌∷◌, not, ◌||◌, Option, some, and_then, length, ltb, ◌==◌,
  bytes_eq, if◌then◌else◌, raise_if, Result, ok, err, AftError, Message,
}
use agentic_file_transfer.Frame.Wire.{
  put_u8, put_u32, put_u64, put_str, put_bytes, get_u8, get_u32, get_u64, get_str, get_bytes,
}
use agentic_file_transfer.Frame.Reader.{Reader, ◌>>=◌, ◌>>◌, pure, lift, run}
use agentic_file_transfer.Fec.Paths.{validate_rel_path}
use agentic_file_transfer.Fec.Manifest.Merkle.{
  EntryKind, regular, dir, kind_to_u8, kind_from_u8, Entry, Manifest, merkle_root,
}

abbrev pub manifest_version : ℕ
manifest_version = 1

abbrev pub manifest_max_bytes : ℕ
manifest_max_bytes = 67_108_864

abbrev pub manifest_max_entries : ℕ
manifest_max_entries = 4_000_000

-- One round of the loop in `Manifest::encode`.
unfoldable pub put_manifest_entry : List ℕ → Entry → Option (List ℕ)
unfolding put_u8 put_u32 put_u64 put_bytes put_str kind_to_u8
put_manifest_entry buf e =
    and_then
      (put_bytes
        (put_u64 (put_u64 (put_u32 (put_u8 buf (kind_to_u8 e.kind)) e.mode) e.size) e.offset)
        e.sha256)
      (λ b. put_str b e.path)

unfoldable pub put_manifest_entries : List ℕ → List Entry → Option (List ℕ)
unfolding put_manifest_entry
put_manifest_entries buf [] = some buf
put_manifest_entries buf (e ∷ es) =
    and_then (put_manifest_entry buf e) (λ b. put_manifest_entries b es)

-- `Manifest::encode`, which panics on a path of more than 65,535 bytes.
unfoldable pub encode_manifest : Manifest → Option (List ℕ)
unfolding put_u8 put_u32 put_u64 put_bytes put_manifest_entries
encode_manifest m =
    and_then
      (put_bytes
        (put_u64 (put_u32 (put_u8 [] manifest_version) (length m.entries % 2 ^ 32)) m.total_len)
        m.merkle_root)
      (λ b. put_manifest_entries b m.entries)

-- The fields of one entry in `Manifest::decode`, up to the check of its path.
unfoldable pub get_manifest_entry : Reader Entry
get_manifest_entry = do
  tag ← get_u8
  kind ← lift (kind_from_u8 tag)
  mode ← get_u32
  size ← get_u64
  offset ← get_u64
  sha_raw ← get_bytes
  lift (raise_if (not (length sha_raw == 32)) (AftError.other Message.sha256_length))
  path ← get_str
  lift (validate_rel_path path)
  pure (record {
    kind = kind;
    path = path;
    mode = mode;
    size = size;
    offset = offset;
    sha256 = sha_raw;
  })

-- `match kind`: the check of an entry's place, and the offset that is expected next.
unfoldable pub place_entry : EntryKind → Entry → ℕ → Result ℕ
place_entry dir e expected =
    if not (e.size == 0) || not (e.offset == 0)
    then err (AftError.other Message.dir_with_bytes)
    else ok expected
place_entry regular e expected =
    if not (e.offset == expected)
    then err (AftError.other (Message.not_contiguous e.path e.offset expected))
    else if ltb (expected + e.size) (2 ^ 64)
    then ok (expected + e.size)
    else err (AftError.other Message.packed_overflow)

-- `for _ in 0..count`, with the entries and the offset expected at the end.
unfoldable pub get_manifest_entries : ℕ → ℕ → Reader (List Entry × ℕ)
get_manifest_entries zero expected = pure ([], expected)
get_manifest_entries (suc count) expected = do
  e ← get_manifest_entry
  next ← lift (place_entry e.kind e expected)
  r ← get_manifest_entries count next
  pure (e ∷ r.0, r.1)

module _ (sha : List ℕ → List ℕ) where
  -- The checks behind the loop.
  unfoldable pub seal_manifest : List Entry × ℕ → ℕ → List ℕ → Result Manifest
  seal_manifest (entries, expected) total_len root =
      if not (expected == total_len)
      then err (AftError.other (Message.total_mismatch total_len expected))
      else if not (bytes_eq (merkle_root sha entries) root)
      then err (AftError.other Message.root_mismatch)
      else ok (record { entries = entries; total_len = total_len; merkle_root = root })

  unfoldable pub get_manifest : Reader Manifest
  get_manifest = do
    version ← get_u8
    lift (
        raise_if (not (version == manifest_version))
          (AftError.other (Message.manifest_version version)))
    count ← get_u32
    lift (
        raise_if (ltb manifest_max_entries count) (AftError.other (Message.too_many_entries count)))
    total_len ← get_u64
    root ← get_bytes
    lift (raise_if (not (length root == 32)) (AftError.other Message.root_length))
    r ← get_manifest_entries count 0
    lift (seal_manifest r total_len root)

  -- `Manifest::decode`
  unfoldable pub decode_manifest : List ℕ → Result Manifest
  unfolding get_manifest
  decode_manifest = run get_manifest
