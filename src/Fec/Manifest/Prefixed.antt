-- ===== src/Fec/Manifest/Prefixed.antt =====
-- Proofs on the manifest at the head of a packed stream, src/aftp/fec/manifest.rs.
use agentic_file_transfer.Base.{
  ℕ, ◌+◌, ◌≤◌, ◌≡◌, refl, ap, sym, ◌∙◌, List, ◌++◌, false, some, arith, length, take, drop, ltb,
  le_bytes, le_value, length-le_bytes, le_value-le_bytes, length-append, append_assoc,
  take-append_self, drop-append_self, ge→ltb, ok, All, Option-cases, none≢some, inl, inr,
}
use agentic_file_transfer.Fec.Manifest.Merkle.{Manifest}
use agentic_file_transfer.Fec.Manifest.Codec.{encode_manifest, decode_manifest}
use agentic_file_transfer.Fec.Manifest.Accepted.{IsSafe}
use agentic_file_transfer.Fec.Manifest.EntryWire.{IsWireEntry}
use agentic_file_transfer.Fec.Manifest.RoundTrip.{decode_manifest-encode_manifest}
use agentic_file_transfer.Fec.Manifest.Packed.{manifest_prefix, read_exact}
use agentic_file_transfer.Fec.Manifest.Unpack.{read_manifest_prefix}

read_exact-head :
    (bytes rest : List ℕ) (n : ℕ) → length bytes ≡ n → read_exact (bytes ++ rest) 0 n ≡ ok bytes
unfolding read_exact
read_exact-head bytes rest n e =
    let fits : ltb (length (bytes ++ rest)) (0 + n) ≡ false =
      ge→ltb _ _ (omega (arith, length-append bytes rest, e)) in
    rw fits (ap (λ k. ok (take k (bytes ++ rest))) (sym e) ∙ ap ok (take-append_self bytes rest))

read_exact-behind :
    (head bytes rest : List ℕ) (i n : ℕ)
    → length head ≡ i
    → length bytes ≡ n
    → read_exact (head ++ (bytes ++ rest)) i n ≡ ok bytes
unfolding read_exact
read_exact-behind head bytes rest i n h e =
    let fits : ltb (length (head ++ (bytes ++ rest))) (i + n) ≡ false =
      ge→ltb _ _
        (omega (arith, length-append head (bytes ++ rest), length-append bytes rest, h, e)) in
    rw fits (
      ap (λ k. ok (take n (drop k (head ++ (bytes ++ rest))))) (sym h)
      ∙ ap (λ t. ok (take n t)) (drop-append_self head (bytes ++ rest))
      ∙ ap (λ k. ok (take k (bytes ++ rest))) (sym e)
      ∙ ap ok (take-append_self bytes rest))

read_manifest_prefix-led :
    (sha : List ℕ → List ℕ) (m : Manifest) (word encoded stream : List ℕ)
    → length word ≡ 8
    → le_value word ≡ length encoded
    → decode_manifest sha encoded ≡ ok m
    → length encoded ≤ 67_108_864
    → read_manifest_prefix sha (word ++ (encoded ++ stream)) ≡ ok (m, 8 + length encoded)
unfolding read_manifest_prefix
read_manifest_prefix-led sha m word encoded stream long value decoded few =
    let capped : ltb 67_108_864 (length encoded) ≡ false = ge→ltb _ _ few in
    rw
      (
        read_exact-head word (encoded ++ stream) 8 long,
        value,
        capped,
        read_exact-behind word encoded stream 8 (length encoded) long refl,
        decoded,
      )
      refl

-- read_manifest_prefix finds, at the head of a packed stream, the manifest that manifest_prefix put
-- there, and the place where the files begin, if the manifest is safe to unpack, with 32-bit modes,
-- 64-bit sizes, UTF-8 paths and a Merkle root of 32 bytes, and is encoded in 64 MiB at most.
pub read_manifest_prefix-manifest_prefix :
    (sha : List ℕ → List ℕ) (m : Manifest) (stream : List ℕ) {prefix : List ℕ}
    → IsSafe sha m
    → All IsWireEntry m.entries
    → length m.merkle_root ≡ 32
    → length prefix ≤ 8 + 67_108_864
    → manifest_prefix m ≡ some prefix
    → read_manifest_prefix sha (prefix ++ stream) ≡ ok (m, length prefix)
unfolding manifest_prefix
read_manifest_prefix-manifest_prefix sha m stream {prefix} safe wire long few built =
    elim (Option-cases (encode_manifest m)) [
      | inl n ↦ none≢some (rw n at built)
      | inr (encoded, e) ↦
          let made : le_bytes 8 (length encoded) ++ encoded ≡ prefix = cc (rw e at built) in
          let size : 8 + length encoded ≡ length prefix = omega (
            arith,
            ap length made,
            length-append (le_bytes 8 (length encoded)) encoded,
            length-le_bytes 8 (length encoded),
          ) in
          let word = le_bytes 8 (length encoded) in
          ap (λ t. read_manifest_prefix sha (t ++ stream)) (sym made)
          ∙ ap (read_manifest_prefix sha) (append_assoc word encoded stream)
          ∙ read_manifest_prefix-led sha m word encoded stream (length-le_bytes 8 (length encoded))
              (le_value-le_bytes 8 (length encoded) (omega (arith, size, few)))
              (decode_manifest-encode_manifest sha m safe wire long e) (omega (arith, size, few))
          ∙ ap (λ k. ok (m, k)) size
    ]
