-- ===== src/Fec/Manifest/Built.antt =====
-- Proofs on the manifests that `build_manifest` of src/aftp/fec/manifest.rs makes.
use agentic_file_transfer.Base.{
  subst, ℕ, ◌+◌, ◌^◌, ◌≤◌, ◌<◌, ◌≡◌, refl, ap, sym, ◌∙◌, List, [], ◌∷◌, ◌++◌, length, ok, All,
  All-append, Bool-cases, inl, inr,
}
use agentic_file_transfer.Base.Fallible.{>>=-eq-ok}
use agentic_file_transfer.Frame.Yields.{ok_inj}
use agentic_file_transfer.Fec.Paths.{validate_rel_path}
use agentic_file_transfer.Fec.Manifest.Merkle.{Entry, Manifest, merkle_root}
use agentic_file_transfer.Fec.Manifest.Accepted.{Fills, IsSafe}
use agentic_file_transfer.Fec.Manifest.Build.{
  FoundDir, FoundFile, comes_first, insert_by_path, sort_by_path, dir_entries, file_entries,
  build_manifest,
}

module _ {A : Type 0} (path : A → List ℕ) (P : A → Type 0) where
  insert_by_path-All : (x : A) (xs : List A) → P x → All P xs → All P (insert_by_path path x xs)
  unfolding insert_by_path
  insert_by_path-All x [] p ps = (p, tt)
  insert_by_path-All x (y ∷ ys) p (r, ps) = elim (Bool-cases (comes_first (path x) (path y))) [
    | inl first ↦ rw first (p, (r, ps))
    | inr later ↦ rw later (r, insert_by_path-All x ys p ps)
  ]

  sort_by_path-All : (xs : List A) → All P xs → All P (sort_by_path path xs)
  unfolding sort_by_path
  sort_by_path-All [] ps = tt
  sort_by_path-All (x ∷ xs) (p, ps) =
      insert_by_path-All x (sort_by_path path xs) p (sort_by_path-All xs ps)

-- What the entries of a manifest need for it to be safe.
abbrev AreSafe : List Entry → ℕ → ℕ → Type 0
AreSafe es at end =
    All (λ e. validate_rel_path e.path ≡ ok tt) es
    × All (λ e. length e.sha256 ≡ 32) es
    × Fills es at end

Fills-append :
    (ds fs : List Entry) (at middle end : ℕ)
    → Fills ds at middle
    → Fills fs middle end
    → Fills (ds ++ fs) at end
Fills-append [] fs at middle end h k = subst (λ t. Fills fs t end) (sym h) k
Fills-append (d ∷ ds) fs at middle end (s, h) k =
    (s, Fills-append ds fs (at + d.size) middle end h k)

dir_entries-AreSafe :
    (ds : List FoundDir) (es : List Entry) → dir_entries ds ≡ ok es → AreSafe es 0 0
unfolding dir_entries
dir_entries-AreSafe [] es h = subst (λ t. AreSafe t 0 0) (ok_inj h) (tt, tt, refl)
dir_entries-AreSafe (d ∷ ds) es h =
    let (u, valid, h1) = >>=-eq-ok (validate_rel_path d.path) _ h in
    let (rest, made, h2) = >>=-eq-ok (dir_entries ds) _ h1 in
    let (vs, ls, f) = dir_entries-AreSafe ds rest made in
    subst (λ t. AreSafe t 0 0) (ok_inj h2) ((valid, vs), (refl, ls), ((refl, refl), f))

file_entries-AreSafe :
    (fs : List FoundFile) (at : ℕ) (r : List Entry × ℕ)
    → All (λ f. length f.sha256 ≡ 32) fs
    → file_entries fs at ≡ ok r
    → AreSafe r.0 at r.1
unfolding file_entries
file_entries-AreSafe [] at r ls h = subst (λ t. AreSafe t.0 at t.1) (ok_inj h) (tt, tt, refl)
file_entries-AreSafe (f ∷ fs) at r (l, ls) h =
    let (u, valid, h1) = >>=-eq-ok (validate_rel_path f.path) _ h in
    let (rest, made, h2) = >>=-eq-ok (file_entries fs (at + f.size)) _ h1 in
    let (vs, hs, filled) = file_entries-AreSafe fs (at + f.size) rest ls made in
    subst (λ t. AreSafe t.0 at t.1) (ok_inj h2) ((valid, vs), (l, hs), (refl, filled))

-- A manifest that build_manifest makes from files with hashes of 32 bytes is safe to unpack, which
-- is what decode demands: valid paths, files one behind the other without gaps, empty directories,
-- and the Merkle root of its entries, if it has at most 4,000,000 entries and the files have fewer
-- than 2^64 bytes together.
pub build_manifest-IsSafe :
    (sha : List ℕ → List ℕ) (dirs : List FoundDir) (files : List FoundFile) (m : Manifest)
    → All (λ f. length f.sha256 ≡ 32) files
    → length m.entries ≤ 4_000_000
    → m.total_len < 2 ^ 64
    → build_manifest sha dirs files ≡ ok m
    → IsSafe sha m
unfolding build_manifest
build_manifest-IsSafe sha dirs files m hashed few fits h =
    let (ds, made, h1) =
      >>=-eq-ok (dir_entries (sort_by_path (λ (d : FoundDir). d.path) dirs)) _ h in
    let (fs, listed, h2) =
      >>=-eq-ok (file_entries (sort_by_path (λ (f : FoundFile). f.path) files) 0) _ h1 in
    let (vs, ls, d) = dir_entries-AreSafe (sort_by_path (λ (d : FoundDir). d.path) dirs) ds made in
    let sorted =
      sort_by_path-All (λ (f : FoundFile). f.path) (λ f. length f.sha256 ≡ 32) files hashed in
    let (ws, ks, f) =
      file_entries-AreSafe (sort_by_path (λ (f : FoundFile). f.path) files) 0 fs sorted listed in
    let out = ok_inj h2 in
    let same : ds ++ fs.0 ≡ m.entries = ap (λ t. t.entries) out in
    let total : fs.1 ≡ m.total_len = ap (λ t. t.total_len) out in
    let root : merkle_root sha (ds ++ fs.0) ≡ m.merkle_root = ap (λ t. t.merkle_root) out in
    record {
      few = few;
      safe_paths =
          subst (All (λ e. validate_rel_path e.path ≡ ok tt)) same
            (All-append (λ e. validate_rel_path e.path ≡ ok tt) ds fs.0 vs ws);
      hashed =
          subst (All (λ e. length e.sha256 ≡ 32)) same
            (All-append (λ e. length e.sha256 ≡ 32) ds fs.0 ls ks);
      filled =
          subst (λ t. Fills t 0 m.total_len) same
            (subst (Fills (ds ++ fs.0) 0) total (Fills-append ds fs.0 0 0 fs.1 d f));
      fits = fits;
      authentic = sym root ∙ ap (merkle_root sha) same;
    }
