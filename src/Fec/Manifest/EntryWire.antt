-- ===== src/Fec/Manifest/EntryWire.antt =====
-- Proofs on the wire form of an entry, src/aftp/fec/manifest.rs.
use agentic_file_transfer.Base.{
  ℕ, ◌^◌, ◌<◌, ◌≡◌, refl, ap, ◌∙◌, List, [], ◌∷◌, ◌++◌, false, not, some, arith, length, ◌==◌,
  le_bytes, append_assoc, append-nil, length-append, ok, Option-cases, none≢some, inl, inr, All,
}
use agentic_file_transfer.Frame.Utf8.{IsUtf8}
use agentic_file_transfer.Frame.Wire.{put_u8, put_u32, put_u64, put_bytes}
use agentic_file_transfer.Frame.Reader.{
  put_str_inv, put_bytes_inv, prefixed, At, Parses, At-u8, At-u32, At-u64, At-str, At-bytes,
}
use agentic_file_transfer.Fec.Paths.{validate_rel_path}
use agentic_file_transfer.Fec.Manifest.Merkle.{
  EntryKind, regular, dir, kind_to_u8, kind_from_u8, Entry,
}
use agentic_file_transfer.Fec.Manifest.Codec.{
  put_manifest_entry, put_manifest_entries, get_manifest_entry,
}

-- The entry's fields fit the wire.
pub record IsWireEntry (e : Entry) : Type 0 where
  pub mode_fits : e.mode < 2 ^ 32
  pub size_fits : e.size < 2 ^ 64
  pub path_utf8 : IsUtf8 e.path

abbrev pub kind_byte : EntryKind → ℕ
kind_byte regular = 0
kind_byte dir = 1

abbrev pub manifest_words : Entry → List ℕ
manifest_words e =
    kind_byte e.kind ∷ (le_bytes 4 e.mode ++ (le_bytes 8 e.size ++ le_bytes 8 e.offset))

abbrev pub manifest_entry_bytes : Entry → List ℕ
manifest_entry_bytes e = manifest_words e ++ (prefixed e.sha256 ++ prefixed e.path)

abbrev pub manifest_bytes : List Entry → List ℕ
manifest_bytes [] = []
manifest_bytes (e ∷ es) = manifest_entry_bytes e ++ manifest_bytes es

kind_to_u8-byte : (k : EntryKind) → kind_to_u8 k ≡ kind_byte k
unfolding kind_to_u8
kind_to_u8-byte regular = refl
kind_to_u8-byte dir = refl

kind_from_u8-byte : (k : EntryKind) → kind_from_u8 (kind_byte k) ≡ ok k
unfolding kind_from_u8
kind_from_u8-byte regular = refl
kind_from_u8-byte dir = refl

put_words_inv :
    (buf : List ℕ) (e : Entry)
    → put_u64 (put_u64 (put_u32 (put_u8 buf (kind_to_u8 e.kind)) e.mode) e.size) e.offset
      ≡ buf ++ manifest_words e
unfolding put_u8 put_u32 put_u64
put_words_inv buf e =
    let k = kind_byte e.kind ∷ [] in
    rw (kind_to_u8-byte e.kind) (
      cc (
        append_assoc ((buf ++ k) ++ le_bytes 4 e.mode) (le_bytes 8 e.size) (le_bytes 8 e.offset),
        append_assoc (buf ++ k) (le_bytes 4 e.mode) (le_bytes 8 e.size ++ le_bytes 8 e.offset),
        append_assoc buf k (le_bytes 4 e.mode ++ (le_bytes 8 e.size ++ le_bytes 8 e.offset)),
      ))

put_manifest_entry_inv :
    (buf : List ℕ) (e : Entry) {out : List ℕ}
    → put_manifest_entry buf e ≡ some out
    → (length e.path < 2 ^ 16) × (out ≡ buf ++ manifest_entry_bytes e)
unfolding put_manifest_entry
put_manifest_entry_inv buf e built =
    let front =
      put_u64 (put_u64 (put_u32 (put_u8 buf (kind_to_u8 e.kind)) e.mode) e.size) e.offset in
    elim (Option-cases (put_bytes front e.sha256)) [
      | inl n ↦ none≢some (rw n at built)
      | inr (b, s) ↦
          let (small, e1) = put_bytes_inv front e.sha256 s in
          let (short, e2) = put_str_inv b e.path (rw s at built) in
          (
            short,
            e2
                ∙ ap (λ t. t ++ prefixed e.path)
                    (e1 ∙ ap (λ t. t ++ prefixed e.sha256) (put_words_inv buf e))
                ∙ append_assoc (buf ++ manifest_words e) (prefixed e.sha256) (prefixed e.path)
                ∙ append_assoc buf (manifest_words e) (prefixed e.sha256 ++ prefixed e.path),
          )
    ]

abbrev pub IsShortPath : Entry → Type 0
IsShortPath e = length e.path < 2 ^ 16

pub put_manifest_entries_inv :
    (buf : List ℕ) (es : List Entry) {out : List ℕ}
    → put_manifest_entries buf es ≡ some out
    → All IsShortPath es × (out ≡ buf ++ manifest_bytes es)
unfolding put_manifest_entries
put_manifest_entries_inv buf [] built = (tt, cc (append-nil buf))
put_manifest_entries_inv buf (e ∷ es) built = elim (Option-cases (put_manifest_entry buf e)) [
  | inl n ↦ none≢some (rw n at built)
  | inr (b, s) ↦
      let (small, e1) = put_manifest_entry_inv buf e s in
      let (smalls, e2) = put_manifest_entries_inv b es (rw s at built) in
      ((small, smalls), cc (e2, e1, append_assoc buf (manifest_entry_bytes e) (manifest_bytes es)))
]

pub get_manifest_entry-Parses :
    (e : Entry)
    → IsWireEntry e
    → e.offset < 2 ^ 64
    → length e.sha256 ≡ 32
    → validate_rel_path e.path ≡ ok tt
    → IsShortPath e
    → Parses get_manifest_entry (manifest_entry_bytes e) e
unfolding get_manifest_entry
get_manifest_entry-Parses e w placed long valid short buf off rest fits stands =
    let tail = prefixed e.sha256 ++ prefixed e.path in
    let here : At buf off (
        kind_byte e.kind
        ∷ (le_bytes 4 e.mode
            ++ (le_bytes 8 e.size
                ++ (le_bytes 8 e.offset ++ (prefixed e.sha256 ++ (prefixed e.path ++ rest)))))) =
      record {
        fits = fits;
        stands =
            stands
            ∙ cc (
              append_assoc (manifest_words e) tail rest,
              append_assoc (le_bytes 4 e.mode) (le_bytes 8 e.size ++ le_bytes 8 e.offset)
                  (tail ++ rest),
              append_assoc (le_bytes 8 e.size) (le_bytes 8 e.offset) (tail ++ rest),
              append_assoc (prefixed e.sha256) (prefixed e.path) rest,
            );
      } in
    let (r1, a1) = At-u8 (kind_byte e.kind) here in
    let (r2, a2) = At-u32 e.mode w.mode_fits a1 in
    let (r3, a3) = At-u64 e.size w.size_fits a2 in
    let (r4, a4) = At-u64 e.offset placed a3 in
    let (r5, a5) = At-bytes e.sha256 (omega (arith, long)) a4 in
    let (r6, a6) = At-str e.path short w.path_utf8 a5 in
    let right : not (length e.sha256 == 32) ≡ false = ground (arith, long) in
    rw (r1, kind_from_u8-byte e.kind, r2, r3, r4, r5, right, r6, valid)
      (ap (λ k. ok (e, k)) (omega (arith, length-append e.sha256 (prefixed e.path))))
