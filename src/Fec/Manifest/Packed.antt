-- ===== src/Fec/Manifest/Packed.antt =====
-- The packed stream of src/aftp/fec/manifest.rs, in which a manifest and the files it lists travel:
-- `PackedTreeReader` serves it from the files, `read_manifest_prefix` and `unpack_tree` take it apart.
-- The file system of the sender is a function from paths to contents.
use agentic_file_transfer.Base.{
  ℕ, ◌+◌, ◌-◌, ◌%◌, ◌^◌, min, List, [], ◌∷◌, ◌++◌, Bool, false, Option, option_map, length, slice,
  leb, ltb, if◌then◌else◌, le_bytes, Result, ok, err, AftError, IoError, Message,
}
use agentic_file_transfer.Base.Fallible.{◌>>=◌}
use agentic_file_transfer.Fec.Manifest.Merkle.{EntryKind, regular, dir, Entry, Manifest}
use agentic_file_transfer.Fec.Manifest.Codec.{encode_manifest}

-- One file of `PackedTreeReader`: offset, size and path.
pub record PackedFile : Type 0 where
  pub offset : ℕ
  pub size : ℕ
  pub path : List ℕ

-- Opening a file and reading it: an error, or its bytes.
abbrev pub Tree : Type 0
Tree = List ℕ → Result (List ℕ)

pub record PackedTreeReader : Type 0 where
  pub root : Tree
  pub prefix : List ℕ
  pub files : List PackedFile
  pub total_len : ℕ

-- `manifest_prefix`, which panics where `Manifest::encode` does.
unfoldable pub manifest_prefix : Manifest → Option (List ℕ)
unfolding encode_manifest
manifest_prefix m =
    option_map (λ encoded. le_bytes 8 (length encoded) ++ encoded) (encode_manifest m)

-- `e.kind == EntryKind::File && e.size > 0`, and the tuple of the entry.
unfoldable pub is_packed : EntryKind → ℕ → Bool
is_packed regular size = ltb 0 size
is_packed dir size = false

unfoldable pub packed_files : List Entry → List PackedFile
unfolding is_packed
packed_files [] = []
packed_files (e ∷ es) =
    let rest = packed_files es in
    if is_packed e.kind e.size
    then record { offset = e.offset; size = e.size; path = e.path } ∷ rest
    else rest

-- `sort_by_key`, which keeps the order of equal keys.
unfoldable pub insert_by_offset : PackedFile → List PackedFile → List PackedFile
insert_by_offset f [] = f ∷ []
insert_by_offset f (g ∷ gs) =
    let later = insert_by_offset f gs in if leb f.offset g.offset then f ∷ (g ∷ gs) else g ∷ later

unfoldable pub sort_by_offset : List PackedFile → List PackedFile
unfolding insert_by_offset
sort_by_offset [] = []
sort_by_offset (f ∷ fs) = insert_by_offset f (sort_by_offset fs)

-- `PackedTreeReader::new`, whose sum wraps around in a release build.
unfoldable pub new_reader : Tree → Manifest → List ℕ → PackedTreeReader
unfolding sort_by_offset packed_files
new_reader root m prefix = record {
  root = root;
  prefix = prefix;
  files = sort_by_offset (packed_files m.entries);
  total_len = (length prefix + m.total_len) % 2 ^ 64;
}

-- `partition_point`: the files before the first one that ends behind `fstart`.
unfoldable pub skip_files : List PackedFile → ℕ → List PackedFile
skip_files [] fstart = []
skip_files (f ∷ fs) fstart =
    let rest = skip_files fs fstart in if leb (f.offset + f.size) fstart then rest else f ∷ fs

-- `seek` and `read_exact` on a file.
unfoldable pub read_exact : List ℕ → ℕ → ℕ → Result (List ℕ)
read_exact bytes start len =
    if ltb (length bytes) (start + len)
    then err (AftError.io IoError.unexpected_eof)
    else ok (slice bytes start len)

-- `while fcur < fend`, which appends what the source copies behind what it has.
unfoldable pub read_files : Tree → List PackedFile → ℕ → ℕ → Result (List ℕ)
unfolding read_exact
read_files root [] fcur fend =
    if ltb fcur fend then err (AftError.other Message.read_past_files) else ok []
read_files root (f ∷ fs) fcur fend =
    let within = fcur - f.offset in
    let want = min (fend - fcur) (f.size - within) in
    let rest = read_files root fs (fcur + want) fend in
    if ltb fcur fend
    then (do
      content ← root f.path
      bytes ← read_exact content within want
      more ← rest
      ok (bytes ++ more))
    else ok []

-- The part of the window that falls in the prefix.
unfoldable pub serve_prefix : List ℕ → ℕ → ℕ → List ℕ
serve_prefix prefix start end =
    if ltb start (length prefix) then slice prefix start (min end (length prefix) - start) else []

-- The rest of it, behind what the prefix gave.
unfoldable pub serve_files : PackedTreeReader → ℕ → ℕ → List ℕ → Result (List ℕ)
unfolding read_files skip_files
serve_files r cursor end head =
    let plen = length r.prefix in
    if leb end cursor then ok head else (do
      tail ← read_files r.root (skip_files r.files (cursor - plen)) (cursor - plen) (end - plen)
      ok (head ++ tail))

-- `PackedTreeReader::read_block`
unfoldable pub read_packed : PackedTreeReader → ℕ → ℕ → Result (List ℕ)
unfolding serve_prefix serve_files
read_packed r start len =
    let head = serve_prefix r.prefix start (start + len) in
    if ltb r.total_len (start + len)
    then err (AftError.other Message.read_out_of_bounds)
    else serve_files r (start + length head) (start + len) head
