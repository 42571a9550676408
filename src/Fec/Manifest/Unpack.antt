-- ===== src/Fec/Manifest/Unpack.antt =====
-- What the receiver reads of a packed stream, `read_manifest_prefix` and the loop over the bytes of a
-- file in `unpack_tree`, and where a file goes, `safe_join`, of src/aftp/fec/manifest.rs. SHA-256 is a
-- parameter, and so is whether a path lies below the destination.
use agentic_file_transfer.Base.{
  ℕ, zero, suc, ◌+◌, ◌-◌, min, List, [], Bool, ◌++◌, ltb, if◌then◌else◌, le_value, raise_if, Result,
  ok, err, AftError, Message,
}
use agentic_file_transfer.Base.Fallible.{◌>>=◌, ◌>>◌}
use agentic_file_transfer.Fec.Paths.{validate_rel_path}
use agentic_file_transfer.Fec.Manifest.Merkle.{Manifest}
use agentic_file_transfer.Fec.Manifest.Codec.{decode_manifest, manifest_max_bytes}
use agentic_file_transfer.Fec.Manifest.Packed.{read_exact}

-- `read_manifest_prefix`
unfoldable pub read_manifest_prefix : (List ℕ → List ℕ) → List ℕ → Result (Manifest × ℕ)
unfolding read_exact decode_manifest
read_manifest_prefix sha packed = do
  len_buf ← read_exact packed 0 8
  raise_if (ltb manifest_max_bytes (le_value len_buf))
      (AftError.other (Message.manifest_too_long (le_value len_buf)))
  mbuf ← read_exact packed 8 (le_value len_buf)
  m ← decode_manifest sha mbuf
  ok (m, 8 + le_value len_buf)

-- The length of `buf`.
abbrev pub chunk_size : ℕ
chunk_size = 1_048_576

-- `while remaining > 0`, with fuel for every byte: a round takes one at least.
unfoldable pub read_chunks : List ℕ → ℕ → ℕ → ℕ → Result (List ℕ)
unfolding read_exact
read_chunks packed zero pos remaining = ok []
read_chunks packed (suc fuel) pos remaining =
    let want = min remaining chunk_size in
    let rest = read_chunks packed fuel (pos + want) (remaining - want) in
    if ltb 0 remaining
    then (do bytes ← read_exact packed pos want; more ← rest; ok (bytes ++ more))
    else ok []

module _ (below : List ℕ → Bool) where
  -- `safe_join`; `below` is `target.starts_with(canonical_root)`.
  unfoldable pub safe_join : List ℕ → Result (List ℕ)
  safe_join rel =
      validate_rel_path rel >> (if below rel then ok rel else err (AftError.permission_denied rel))
