-- ===== src/Fec/Manifest/Accepted.antt =====
-- Proofs on what `Manifest::decode` of src/aftp/fec/manifest.rs accepts.
use agentic_file_transfer.Base.{
  subst, ℕ, zero, suc, ◌+◌, ◌^◌, ◌≤◌, ◌<◌, ◌≡◌, refl, ap, sym, ◌∙◌, List, [], ◌∷◌, false, not,
  arith, length, ltb, ltb→lt, ltb→ge, ◌==◌, ==_iff, bytes_eq, bytes_eq→eq, raise_if, ok, All,
  Bool-cases, inl, inr,
}
use agentic_file_transfer.Base.Fallible.{>>=-eq-ok}
use agentic_file_transfer.Frame.Wire.{get_u8, get_u32, get_u64, get_str, get_bytes}
use agentic_file_transfer.Frame.Reader.{lift}
use agentic_file_transfer.Frame.Yields.{
  Yields, ok_inj, Yields-bind, Yields-lift, Yields-knowing, Yields-pure, Yields-last,
  raise_if-eq-ok,
}
use agentic_file_transfer.Fec.Paths.{validate_rel_path}
use agentic_file_transfer.Fec.Manifest.Merkle.{
  EntryKind, regular, dir, kind_from_u8, Entry, Manifest, merkle_root,
}
use agentic_file_transfer.Fec.Manifest.Codec.{
  get_manifest_entry, place_entry, get_manifest_entries, seal_manifest, get_manifest,
  decode_manifest,
}

-- Where an entry stands in the packed stream: a directory nowhere, a file right behind the files
-- before it.
abbrev pub Stands : EntryKind → Entry → ℕ → Type 0
Stands dir e at = (e.size ≡ 0) × (e.offset ≡ 0)
Stands regular e at = e.offset ≡ at

-- The entries fill the stream from `at` to `end` without gaps or overlaps.
abbrev pub Fills : List Entry → ℕ → ℕ → Type 0
Fills [] at end = at ≡ end
Fills (e ∷ es) at end = Stands e.kind e at × Fills es (at + e.size) end

-- Safe to unpack.
pub record IsSafe (sha : List ℕ → List ℕ) (m : Manifest) : Type 0 where
  pub few : length m.entries ≤ 4_000_000
  pub safe_paths : All (λ e. validate_rel_path e.path ≡ ok tt) m.entries
  pub hashed : All (λ e. length e.sha256 ≡ 32) m.entries
  pub filled : Fills m.entries 0 m.total_len
  pub fits : m.total_len < 2 ^ 64
  pub authentic : m.merkle_root ≡ merkle_root sha m.entries

not-false : (a b : ℕ) → not (a == b) ≡ false → a ≡ b
not-false a b h = ground arith

-- What every entry that was read has passed.
abbrev IsChecked : Entry → Type 0
IsChecked e = (validate_rel_path e.path ≡ ok tt) × (length e.sha256 ≡ 32)

get_manifest_entry-Yields : Yields get_manifest_entry IsChecked
unfolding get_manifest_entry
get_manifest_entry-Yields = Yields-bind get_u8 _ λ tag.
    Yields-bind (lift (kind_from_u8 tag)) _ λ kind. Yields-bind get_u32 _ λ mode.
      Yields-bind get_u64 _ λ size. Yields-bind get_u64 _ λ offset.
        Yields-bind get_bytes _ λ sha_raw.
          Yields-lift (raise_if (not (length sha_raw == 32)) _) _ λ u long.
            Yields-bind get_str _ λ path. Yields-lift (validate_rel_path path) _ λ v valid.
              Yields-pure _ (valid, not-false (length sha_raw) 32 (raise_if-eq-ok _ _ u long))

-- One round of the loop.
place_entry-Stands :
    (k : EntryKind) (e : Entry) (at next : ℕ)
    → place_entry k e at ≡ ok next
    → Stands k e at × (next ≡ at + e.size) × (at < 2 ^ 64 → next < 2 ^ 64)
unfolding place_entry
place_entry-Stands dir e at next h = ground arith
place_entry-Stands regular e at next h = elim (Bool-cases (e.offset == at)) [
  | inr other ↦ cc (rw other at h)
  | inl same ↦ elim (Bool-cases (ltb (at + e.size) (2 ^ 64))) [
    | inr over ↦ cc (rw (same, over) at h)
    | inl fits ↦
        let out : at + e.size ≡ next = ok_inj (rw (same, fits) at h) in
        ((==_iff e.offset at).0 same, sym out, λ _. rw (← out) (ltb→lt _ _ fits))
  ]
]

-- What the entries that were read from `at` on are.
abbrev AreChecked : ℕ → ℕ → List Entry × ℕ → Type 0
AreChecked count at (es, end) =
    (length es ≡ count)
    × All (λ e. validate_rel_path e.path ≡ ok tt) es
    × All (λ e. length e.sha256 ≡ 32) es
    × Fills es at end
    × (end < 2 ^ 64)

AreChecked-cons :
    (count at next : ℕ) (e : Entry) (r : List Entry × ℕ)
    → IsChecked e
    → Stands e.kind e at
    → next ≡ at + e.size
    → AreChecked count next r
    → AreChecked (suc count) at (e ∷ r.0, r.1)
AreChecked-cons count at next e (es, end) (p, l) s sum (n, ps, ls, fs, b) =
    (ap suc n, (p, ps), (l, ls), (s, rw (← sum) fs), b)

get_manifest_entries-Yields :
    (count at : ℕ) → at < 2 ^ 64 → Yields (get_manifest_entries count at) (AreChecked count at)
unfolding get_manifest_entries
get_manifest_entries-Yields zero at small = Yields-pure _ (refl, tt, tt, refl, small)
get_manifest_entries-Yields (suc count) at small =
    Yields-knowing get_manifest_entry _ IsChecked get_manifest_entry-Yields λ e checked.
      Yields-lift (place_entry e.kind e at) _ λ next placed.
        let (stands, sum, grows) = place_entry-Stands e.kind e at next placed in
        Yields-knowing (get_manifest_entries count next) _ (AreChecked count next)
          (get_manifest_entries-Yields count next (grows small))
          λ r more. Yields-pure _ (AreChecked-cons count at next e r checked stands sum more)

seal_manifest-ok :
    (sha : List ℕ → List ℕ) (es : List Entry) (end total_len : ℕ) (root : List ℕ) (m : Manifest)
    → seal_manifest sha (es, end) total_len root ≡ ok m
    → (m.entries ≡ es) × (m.total_len ≡ end) × (m.merkle_root ≡ merkle_root sha m.entries)
unfolding seal_manifest
seal_manifest-ok sha es end total_len root m h = elim (Bool-cases (end == total_len)) [
  | inr other ↦ cc (rw other at h)
  | inl same ↦ elim (Bool-cases (bytes_eq (merkle_root sha es) root)) [
    | inr wrong ↦ cc (rw (same, wrong) at h)
    | inl right ↦
        let out = ok_inj (rw (same, right) at h) in
        (
          ap (λ n. n.entries) (sym out),
          ap (λ n. n.total_len) (sym out) ∙ sym ((==_iff end total_len).0 same),
          ap (λ n. n.merkle_root) (sym out)
              ∙ sym (bytes_eq→eq _ _ right)
              ∙ ap (λ n. merkle_root sha n.entries) out,
        )
  ]
]

sealed-IsSafe :
    (sha : List ℕ → List ℕ) (count : ℕ) (r : List Entry × ℕ) (total_len : ℕ) (root : List ℕ)
    (m : Manifest)
    → count ≤ 4_000_000
    → AreChecked count 0 r
    → seal_manifest sha r total_len root ≡ ok m
    → IsSafe sha m
sealed-IsSafe sha count (es, end) total_len root m few (n, ps, ls, fs, b) h =
    let (same, total, authentic) = seal_manifest-ok sha es end total_len root m h in
    record {
      few = omega (arith, ap length same, n, few);
      safe_paths = rw same ps;
      hashed = rw same ls;
      filled = rw (same, total) fs;
      fits = rw total b;
      authentic = authentic;
    }

get_manifest-Yields : (sha : List ℕ → List ℕ) → Yields (get_manifest sha) (IsSafe sha)
unfolding get_manifest
get_manifest-Yields sha = Yields-bind get_u8 _ λ version.
    Yields-bind (lift (raise_if (not (version == 1)) _)) _ λ u. Yields-bind get_u32 _ λ count.
      Yields-lift (raise_if (ltb 4_000_000 count) _) _ λ v few. Yields-bind get_u64 _ λ total_len.
        Yields-bind get_bytes _ λ root.
          Yields-bind (lift (raise_if (not (length root == 32)) _)) _ λ w.
            Yields-knowing (get_manifest_entries count 0) _ (AreChecked count 0)
              (get_manifest_entries-Yields count 0 (omega arith))
              λ r checked. Yields-last (seal_manifest sha r total_len root) λ n sealed.
                sealed-IsSafe sha count r total_len root n
                  (ltb→ge 4_000_000 count (raise_if-eq-ok _ _ v few)) checked sealed

-- A manifest that decode accepts has at most 4,000,000 entries, each with a path that
-- validate_rel_path accepts and a hash of 32 bytes; its files stand one behind the other in the
-- packed stream, in the order of the entries, from 0 to total_len, which is below 2^64, its
-- directories are empty, and its Merkle root is that of its entries.
pub decode_manifest-IsSafe :
    (sha : List ℕ → List ℕ) (buf : List ℕ) (m : Manifest)
    → decode_manifest sha buf ≡ ok m
    → IsSafe sha m
unfolding decode_manifest
decode_manifest-IsSafe sha buf m h =
    let (p, read, out) = >>=-eq-ok (get_manifest sha buf 0) (λ p. ok p.0) h in
    subst (IsSafe sha) (ok_inj out) ((get_manifest-Yields sha).holds buf 0 p.0 p.1 read)
