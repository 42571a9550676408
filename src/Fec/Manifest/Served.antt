-- ===== src/Fec/Manifest/Served.antt =====
-- Proofs on `PackedTreeReader` of src/aftp/fec/manifest.rs.
use agentic_file_transfer.Base.{
  ℕ, ◌+◌, ◌-◌, ◌≤◌, ◌<◌, ◌≡◌, refl, ap, sym, ◌∙◌, min, List, [], ◌∷◌, ◌++◌, false, arith, length,
  slice, leb, ltb, ok, Bool-cases, inl, inr, All, ltb→lt, ltb→ge, leb→le, leb→gt, le→leb,
  append-nil, lt→ltb, ge→ltb,
}
use agentic_file_transfer.Base.Positions.{
  slice-append_first, slice-append_second, slice-append_both,
}
use agentic_file_transfer.Fec.Manifest.Packed.{PackedFile, Tree, skip_files, read_exact, read_files}

-- The files follow each other from `at` to `end`, and none is empty.
abbrev pub Chain : List PackedFile → ℕ → ℕ → Type 0
Chain [] at end = at ≡ end
Chain (f ∷ fs) at end = (f.offset ≡ at) × (0 < f.size) × Chain fs (at + f.size) end

module _ (root : Tree) (content : List ℕ → List ℕ) where
  -- The files are on disk as the manifest says.
  abbrev pub IsOnDisk : PackedFile → Type 0
  IsOnDisk f = (root f.path ≡ ok (content f.path)) × (length (content f.path) ≡ f.size)

  abbrev pub joined : List PackedFile → List ℕ
  joined [] = []
  joined (f ∷ fs) = content f.path ++ joined fs

  read_files-empty : (fs : List PackedFile) (at : ℕ) → read_files root fs at at ≡ ok []
  unfolding read_files
  read_files-empty [] at = let none_ : ltb at at ≡ false = ground arith in rw none_ refl
  read_files-empty (f ∷ fs) at = let none_ : ltb at at ≡ false = ground arith in rw none_ refl

  skip_files-Chain : (fs : List PackedFile) (at end : ℕ) → Chain fs at end → skip_files fs at ≡ fs
  unfolding skip_files
  skip_files-Chain [] at end h = refl
  skip_files-Chain (f ∷ fs) at end (o, pos, h) =
      let ahead : leb (f.offset + f.size) at ≡ false = ground arith in rw ahead refl

  read_exact-within :
      (bytes : List ℕ) (start len : ℕ)
      → start + len ≤ length bytes
      → read_exact bytes start len ≡ ok (slice bytes start len)
  unfolding read_exact
  read_exact-within bytes start len h = rw (ge→ltb _ _ h) refl

  slice-none : (bytes : List ℕ) (i n : ℕ) → n ≡ 0 → slice bytes i n ≡ []
  slice-none bytes i n e = rw e refl

  skip_files-past :
      (f : PackedFile) (fs : List PackedFile) (fstart : ℕ)
      → f.offset + f.size ≤ fstart
      → skip_files (f ∷ fs) fstart ≡ skip_files fs fstart
  unfolding skip_files
  skip_files-past f fs fstart h = rw (le→leb _ _ h) refl

  skip_files-here :
      (f : PackedFile) (fs : List PackedFile) (fstart : ℕ)
      → fstart < f.offset + f.size
      → skip_files (f ∷ fs) fstart ≡ f ∷ fs
  unfolding skip_files
  skip_files-here f fs fstart h =
      let ahead : leb (f.offset + f.size) fstart ≡ false = ground arith in rw ahead refl

  read_files-next :
      (f : PackedFile) (fs : List PackedFile) (fcur fend : ℕ) (more : List ℕ)
      → let within = fcur - f.offset in
        let want = min (fend - fcur) (f.size - within) in
        fcur < fend
        → IsOnDisk f
        → within + want ≤ f.size
        → read_files root fs (fcur + want) fend ≡ ok more
        → read_files root (f ∷ fs) fcur fend ≡ ok (slice (content f.path) within want ++ more)
  unfolding read_files
  read_files-next f fs fcur fend more go (found, long) fits rest =
      let within = fcur - f.offset in
      let want = min (fend - fcur) (f.size - within) in
      let read = read_exact-within (content f.path) within want (omega (arith, long, fits)) in
      rw (lt→ltb _ _ go, found, read, rest) refl

  -- The window ends inside the file that it starts in, or goes on behind it.
  read_files-here :
      (f : PackedFile) (fs : List PackedFile) (at end fcur fend : ℕ)
      → Chain (f ∷ fs) at end
      → IsOnDisk f
      → at ≤ fcur
      → fcur < fend
      → fcur < at + f.size
      → (at + f.size ≤ fend
          → read_files root fs (at + f.size) fend ≡ ok (slice (joined fs) 0 (fend - (at + f.size))))
      → read_files root (f ∷ fs) fcur fend ≡ ok (slice (joined (f ∷ fs)) (fcur - at) (fend - fcur))
  read_files-here f fs at end fcur fend (o, pos, h) (found, long) lo go inside rest =
      let bytes = content f.path in
      let here : fcur - f.offset ≡ fcur - at = omega (arith, o) in
      elim (Bool-cases (ltb fend (at + f.size))) [
        | inl short ↦
            let before = ltb→lt _ _ short in
            let want : min (fend - fcur) (f.size - (fcur - f.offset)) ≡ fend - fcur =
              omega (arith, o) in
            let last : read_files root fs (fcur + min (fend - fcur) (f.size - (fcur - f.offset)))
                  fend
                ≡ ok [] =
              ap (λ k. read_files root fs k fend) (omega (arith, want))
              ∙ read_files-empty fs fend in
            read_files-next f fs fcur fend [] go (found, long) (omega (arith, o)) last
            ∙ ap ok (
                append-nil _
                ∙ ap (λ k. slice bytes k (min (fend - fcur) (f.size - (fcur - f.offset)))) here
                ∙ ap (λ k. slice bytes (fcur - at) k) want
                ∙ sym (
                    slice-append_first bytes (joined fs) (fcur - at) (fend - fcur)
                      (omega (arith, long))))
        | inr beyond ↦
            let past = ltb→ge _ _ beyond in
            let want : min (fend - fcur) (f.size - (fcur - f.offset)) ≡ length bytes - (fcur - at) =
              omega (arith, o, long) in
            let next : fcur + min (fend - fcur) (f.size - (fcur - f.offset)) ≡ at + f.size =
              omega (arith, want, long) in
            let left : fcur - at + (fend - fcur) - length bytes ≡ fend - (at + f.size) =
              omega (arith, long) in
            read_files-next f fs fcur fend (slice (joined fs) 0 (fend - (at + f.size))) go
              (found, long) (omega (arith, o))
              (ap (λ k. read_files root fs k fend) next ∙ rest past)
            ∙ ap
                (λ k. ok (
                  slice bytes k (min (fend - fcur) (f.size - (fcur - f.offset)))
                  ++ slice (joined fs) 0 (fend - (at + f.size))))
                here
            ∙ ap (λ k. ok (slice bytes (fcur - at) k ++ slice (joined fs) 0 (fend - (at + f.size))))
                want
            ∙ ap
                (λ k.
                  ok
                    (slice bytes (fcur - at) (length bytes - (fcur - at)) ++ slice (joined fs) 0 k))
                (sym left)
            ∙ ap ok (
                sym (
                  slice-append_both bytes (joined fs) (fcur - at) (fend - fcur)
                    (omega (arith, long)) (omega (arith, long))))
      ]

  pub read_files-skip :
      (fs : List PackedFile) (at end fcur fend : ℕ)
      → Chain fs at end
      → All IsOnDisk fs
      → at ≤ fcur
      → fcur ≤ fend
      → fend ≤ end
      → read_files root (skip_files fs fcur) fcur fend
        ≡ ok (slice (joined fs) (fcur - at) (fend - fcur))
  read_files-skip [] at end fcur fend h disk lo ord hi =
      let same : fcur ≡ fend = omega (arith, h) in
      ap (λ k. read_files root (skip_files [] fcur) k fend) same
      ∙ read_files-empty (skip_files [] fcur) fend
      ∙ ap ok (sym (slice-none [] (fcur - at) (fend - fcur) (omega arith)))
  read_files-skip (f ∷ fs) at end fcur fend (o, pos, h) ((found, long), disk) lo ord hi =
      elim (Bool-cases (leb (f.offset + f.size) fcur)) [
        | inl past ↦
            let behind : f.offset + f.size ≤ fcur = leb→le _ _ past in
            let e : fcur - at - length (content f.path) ≡ fcur - (at + f.size) =
              omega (arith, long) in
            ap (λ t. read_files root t fcur fend) (skip_files-past f fs fcur behind)
            ∙ read_files-skip fs (at + f.size) end fcur fend h disk (omega (arith, o)) ord hi
            ∙ ap (λ k. ok (slice (joined fs) k (fend - fcur))) (sym e)
            ∙ ap ok (
                sym (
                  slice-append_second (content f.path) (joined fs) (fcur - at) (fend - fcur)
                    (omega (arith, long, o))))
        | inr inside ↦
            let before = leb→gt _ _ inside in
            ap (λ t. read_files root t fcur fend) (skip_files-here f fs fcur before)
            ∙ elim (Bool-cases (ltb fcur fend)) [
              | inr empty ↦
                  let same : fcur ≡ fend = omega (arith, ltb→ge _ _ empty) in
                  ap (λ k. read_files root (f ∷ fs) k fend) same
                  ∙ read_files-empty (f ∷ fs) fend
                  ∙ ap ok
                      (sym (slice-none (joined (f ∷ fs)) (fcur - at) (fend - fcur) (omega arith)))
              | inl go ↦
                  read_files-here f fs at end fcur fend (o, pos, h) (found, long) lo (ltb→lt _ _ go)
                    (omega (arith, o))
                    λ past.
                      let zero_ : at + f.size - (at + f.size) ≡ 0 = omega arith in
                      ap (λ t. read_files root t (at + f.size) fend)
                        (sym (skip_files-Chain fs (at + f.size) end h))
                      ∙ read_files-skip fs (at + f.size) end (at + f.size) fend h disk (omega arith)
                          past hi
                      ∙ ap (λ k. ok (slice (joined fs) k (fend - (at + f.size)))) zero_
            ]
      ]
