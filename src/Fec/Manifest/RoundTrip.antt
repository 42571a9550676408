-- ===== src/Fec/Manifest/RoundTrip.antt =====
-- Proofs on reading a manifest back, src/aftp/fec/manifest.rs.
use agentic_file_transfer.Base.{
  ℕ, ◌+◌, ◌%◌, ◌^◌, ◌≤◌, ◌<◌, ◌≡◌, refl, ap, ◌∙◌, List, [], ◌∷◌, ◌++◌, true, false, not, some,
  arith, length, ltb, ◌==◌, bytes_eq, bytes_eq_refl, le_bytes, append_assoc, length-append, ok,
  Option-cases, none≢some, inl, inr, All, ge→ltb, ==_refl,
}
use agentic_file_transfer.Frame.Wire.{put_u8, put_u32, put_u64, put_bytes}
use agentic_file_transfer.Frame.Reader.{
  put_bytes_inv, prefixed, start, At, At-reads, Parses, At-u8, At-u32, At-u64, At-bytes,
  offset_fits, drop_past,
}
use agentic_file_transfer.Fec.Paths.{validate_rel_path}
use agentic_file_transfer.Fec.Manifest.Merkle.{
  EntryKind, regular, dir, Entry, Manifest, merkle_root,
}
use agentic_file_transfer.Fec.Manifest.Codec.{
  encode_manifest, place_entry, get_manifest_entries, seal_manifest, get_manifest, decode_manifest,
}
use agentic_file_transfer.Fec.Manifest.Accepted.{Stands, Fills, IsSafe}
use agentic_file_transfer.Fec.Manifest.EntryWire.{
  IsWireEntry, manifest_bytes, manifest_entry_bytes, IsShortPath, put_manifest_entries_inv,
  get_manifest_entry-Parses,
}

Fills-le : (es : List Entry) (at end : ℕ) → Fills es at end → at ≤ end
Fills-le [] at end h = omega (arith, h)
Fills-le (e ∷ es) at end (s, h) = omega (arith, Fills-le es (at + e.size) end h)

Stands-fits : (k : EntryKind) (e : Entry) (at : ℕ) → Stands k e at → at < 2 ^ 64 → e.offset < 2 ^ 64
Stands-fits regular e at s h = omega (arith, s)
Stands-fits dir e at s h = omega (arith, s.1)

place_entry-placed :
    (k : EntryKind) (e : Entry) (at : ℕ)
    → Stands k e at
    → at + e.size < 2 ^ 64
    → place_entry k e at ≡ ok (at + e.size)
unfolding place_entry
place_entry-placed regular e at s h = ground (arith, s)
place_entry-placed dir e at s h =
    let same : at ≡ at + e.size = omega (arith, s.0) in rw (s.0, s.1) (ap ok (omega arith))

get_manifest_entries-Parses :
    (es : List Entry) (at end : ℕ)
    → All IsWireEntry es
    → All (λ e. validate_rel_path e.path ≡ ok tt) es
    → All (λ e. length e.sha256 ≡ 32) es
    → All IsShortPath es
    → Fills es at end
    → end < 2 ^ 64
    → Parses (get_manifest_entries (length es) at) (manifest_bytes es) (es, end)
unfolding get_manifest_entries
get_manifest_entries-Parses [] at end w v l s h small buf off rest fits stands =
    rw h (ap (λ k. ok (([], end), k)) (omega arith))
get_manifest_entries-Parses (e ∷ es) at end (w, ws) (v, vs) (l, ls) (s, ss) (st, h) small buf off
      rest fits stands =
    let bs = manifest_entry_bytes e in
    let e' = stands ∙ append_assoc bs (manifest_bytes es) rest in
    let below = Fills-le es (at + e.size) end h in
    let first =
      get_manifest_entry-Parses e w (Stands-fits e.kind e at st (omega (arith, below, small))) l v s
        buf off (manifest_bytes es ++ rest) fits e' in
    let placed = place_entry-placed e.kind e at st (omega (arith, below, small)) in
    let more =
      get_manifest_entries-Parses es (at + e.size) end ws vs ls ss h small buf (off + length bs)
        rest (offset_fits buf bs (manifest_bytes es ++ rest) off fits e')
        (drop_past buf bs (manifest_bytes es ++ rest) off e') in
    rw (first, placed, more)
      (ap (λ k. ok ((e ∷ es, end), k)) (omega (arith, length-append bs (manifest_bytes es))))

seal_manifest-sealed :
    (sha : List ℕ → List ℕ) (m : Manifest)
    → m.merkle_root ≡ merkle_root sha m.entries
    → seal_manifest sha (m.entries, m.total_len) m.total_len m.merkle_root ≡ ok m
unfolding seal_manifest
seal_manifest-sealed sha m authentic =
    let same : bytes_eq (merkle_root sha m.entries) m.merkle_root ≡ true =
      ap (bytes_eq (merkle_root sha m.entries)) authentic
      ∙ bytes_eq_refl (merkle_root sha m.entries) in
    rw (==_refl m.total_len, same) refl

abbrev manifest_header : Manifest → List ℕ
manifest_header m = 1 ∷ (le_bytes 4 (length m.entries) ++ le_bytes 8 m.total_len)

encode_manifest_inv :
    (m : Manifest) {out : List ℕ}
    → length m.entries ≤ 4_000_000
    → encode_manifest m ≡ some out
    → All IsShortPath m.entries
      × (out ≡ manifest_header m ++ (prefixed m.merkle_root ++ manifest_bytes m.entries))
unfolding encode_manifest put_u8 put_u32 put_u64
encode_manifest_inv m few built =
    let count : length m.entries % 2 ^ 32 ≡ length m.entries = omega (arith, few) in
    elim (Option-cases (put_bytes (manifest_header m) m.merkle_root)) [
      | inl n ↦ none≢some (rw (count, n) at built)
      | inr (b, s) ↦
          let (small, e1) = put_bytes_inv (manifest_header m) m.merkle_root s in
          let (shorts, e2) = put_manifest_entries_inv b m.entries (rw (count, s) at built) in
          (
            shorts,
            cc (
              e2,
              e1,
              append_assoc (manifest_header m) (prefixed m.merkle_root) (manifest_bytes m.entries),
            ),
          )
    ]

-- decode reads back every manifest that is safe to unpack, with 32-bit modes, 64-bit sizes, UTF-8
-- paths and a Merkle root of 32 bytes, from what encode wrote of it.
pub decode_manifest-encode_manifest :
    (sha : List ℕ → List ℕ) (m : Manifest) {out : List ℕ}
    → IsSafe sha m
    → All IsWireEntry m.entries
    → length m.merkle_root ≡ 32
    → encode_manifest m ≡ some out
    → decode_manifest sha out ≡ ok m
unfolding decode_manifest get_manifest
decode_manifest-encode_manifest sha m safe wire long built =
    let (shorts, e) = encode_manifest_inv m safe.few built in
    let bytes = manifest_header m ++ (prefixed m.merkle_root ++ manifest_bytes m.entries) in
    let here : At bytes 0 (
        1
        ∷ (le_bytes 4 (length m.entries)
            ++ (le_bytes 8 m.total_len
                ++ (prefixed m.merkle_root ++ (manifest_bytes m.entries ++ []))))) =
      start bytes _ (
        cc (
          append_assoc (manifest_header m) (prefixed m.merkle_root ++ manifest_bytes m.entries) [],
          append_assoc (le_bytes 4 (length m.entries)) (le_bytes 8 m.total_len)
              ((prefixed m.merkle_root ++ manifest_bytes m.entries) ++ []),
          append_assoc (prefixed m.merkle_root) (manifest_bytes m.entries) [],
        )) in
    let (r1, a1) = At-u8 1 here in
    let (r2, a2) = At-u32 (length m.entries) (omega (arith, safe.few)) a1 in
    let (r3, a3) = At-u64 m.total_len safe.fits a2 in
    let (r4, a4) = At-bytes m.merkle_root (omega (arith, long)) a3 in
    let (r5, _) =
      At-reads (get_manifest_entries (length m.entries) 0) (manifest_bytes m.entries)
        (m.entries, m.total_len)
        (get_manifest_entries-Parses m.entries 0 m.total_len wire safe.safe_paths safe.hashed shorts
          safe.filled safe.fits)
        a4 in
    let few : ltb 4_000_000 (length m.entries) ≡ false = ge→ltb _ _ safe.few in
    let right : not (length m.merkle_root == 32) ≡ false = ground (arith, long) in
    rw (e, r1, r2, few, r3, r4, right, r5, seal_manifest-sealed sha m safe.authentic) refl
