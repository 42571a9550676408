-- ===== src/Sync/Deciding.antt =====
-- Proofs on `glob_match` of src/sync.rs: from the meaning of a pattern to the answer.
use agentic_file_transfer.Base.{
  ℕ, zero, suc, ◌+◌, ◌≤◌, ◌<◌, ◌≡◌, ◌≢◌, ◌↔◌, ◌⊎◌, inl, inr, refl, ap, sym, subst, ◌∙◌, List, [],
  ◌∷◌, ◌++◌, Bool, true, false, ◌||◌, ◌==◌, arith, append_assoc, length, All, Bool-cases, ==_iff,
  ==_refl, ne→==,
}
use agentic_file_transfer.Sync.Glob.{
  star, question, slash, is_nil, starts_with, skip_slash, skip_stars, try_everywhere,
  try_in_segment, glob_round, glob_match_inner, glob_match,
}
use agentic_file_transfer.Sync.Matching.{
  Matches, stars, deep, segment, one, itself, glob_match_inner_sound,
}

cons_head : {a b : ℕ} {xs ys : List ℕ} → a ∷ xs ≡ b ∷ ys → a ≡ b
cons_head e = cc e

cons_tail : {a b : ℕ} {xs ys : List ℕ} → a ∷ xs ≡ b ∷ ys → xs ≡ ys
cons_tail e = cc e

or_true : (b : Bool) → (b || true) ≡ true
or_true true = refl
or_true false = refl

skip_stars_nil : (pat : List ℕ) → All (λ c. c ≡ star) pat → skip_stars pat ≡ []
unfolding skip_stars
skip_stars_nil [] h = refl
skip_stars_nil (p ∷ pat) (e, h) = rw ((==_iff p star).1 e) (skip_stars_nil pat h)

module _ (p : List ℕ → Bool) where
  try_everywhere_complete :
      (skipped rest : List ℕ) → p rest ≡ true → try_everywhere p (skipped ++ rest) ≡ true
  unfolding try_everywhere
  try_everywhere_complete [] [] h = h
  try_everywhere_complete [] (t ∷ rest) h = rw h
  try_everywhere_complete (t ∷ skipped) rest h =
      rw (try_everywhere_complete skipped rest h) (or_true (p (t ∷ (skipped ++ rest))))

  try_in_segment_complete :
      (skipped rest : List ℕ)
      → All (λ c. c ≢ slash) skipped
      → p rest ≡ true
      → try_in_segment p (skipped ++ rest) ≡ true
  unfolding try_in_segment
  try_in_segment_complete [] [] plain h = h
  try_in_segment_complete [] (t ∷ rest) plain h = rw h
  try_in_segment_complete (t ∷ skipped) rest (ne, plain) h =
      rw (ne→== t slash ne, try_in_segment_complete skipped rest plain h)
        (or_true (p (t ∷ (skipped ++ rest))))

length-skip_slash : (pat : List ℕ) → length (skip_slash pat) ≤ length pat
unfolding skip_slash
length-skip_slash [] = omega arith
length-skip_slash (p ∷ pat) = ground arith

glob_round_stars :
    (go : List ℕ → List ℕ → Bool) (pat : List ℕ)
    → All (λ c. c ≡ star) pat
    → glob_round go pat [] ≡ true
unfolding glob_round
glob_round_stars go [] all = refl
glob_round_stars go (p ∷ pat) all = ap is_nil (skip_stars_nil (p ∷ pat) all)

glob_round_deep :
    (go : List ℕ → List ℕ → Bool) (next txt : List ℕ)
    → 1 ≤ length txt
    → glob_round go (star ∷ star ∷ next) txt ≡ try_everywhere (go (skip_slash next)) txt
unfolding glob_round
glob_round_deep go next [] h = absurd (omega arith)
glob_round_deep go next (t ∷ txt) h = refl

glob_round_segment :
    (go : List ℕ → List ℕ → Bool) (next txt : List ℕ)
    → 1 ≤ length txt
    → starts_with star next ≡ false
    → glob_round go (star ∷ next) txt ≡ try_in_segment (go next) txt
unfolding glob_round
glob_round_segment go next [] h g = absurd (omega arith)
glob_round_segment go next (t ∷ txt) h g = rw g

-- A '/' in the pattern takes one of the text.
slash_taken :
    (left txt : List ℕ) {pat : List ℕ}
    → pat ≡ slash ∷ left
    → Matches pat txt
    → (rest : List ℕ) × (txt ≡ slash ∷ rest) × Matches left rest
slash_taken left txt e (stars {pat = []} all f) = cc e
slash_taken left txt e (stars {pat = c ∷ pat} all f) = absurd (omega (arith, cons_head e, all.0))
slash_taken left txt e (deep next behind skipped rest f g k passed m) =
    absurd (omega (arith, cons_head (sym e ∙ f)))
slash_taken left txt e (segment next skipped rest f g h k plain m) =
    absurd (omega (arith, cons_head (sym e ∙ f)))
slash_taken left txt e (one next c rest f g ne m) = absurd (omega (arith, cons_head (sym e ∙ f)))
slash_taken left txt e (itself next c rest f g ns nq m) =
    let same : slash ∷ left ≡ c ∷ next = sym e ∙ f in
    (
      rest,
      g ∙ ap (λ d. d ∷ rest) (sym (cons_head same)),
      subst (λ p. Matches p rest) (sym (cons_tail same)) m,
    )

-- Whether or not a '/' is passed over, the pattern without it matches somewhere.
deep_left :
    (next left skipped rest : List ℕ)
    → (left ≡ next) ⊎ (next ≡ slash ∷ left)
    → Matches left rest
    → (skipped' rest' : List ℕ) × (skipped ++ rest ≡ skipped' ++ rest')
      × Matches (skip_slash next) rest'
unfolding skip_slash
deep_left next left skipped rest (inr cut) m = (skipped, rest, refl, rw cut m)
deep_left [] left skipped rest (inl whole) m =
    (skipped, rest, refl, subst (λ p. Matches p rest) whole m)
deep_left (c ∷ next) left skipped rest (inl whole) m = elim (Bool-cases (c == slash)) [
  | inr other ↦ rw other (skipped, rest, refl, subst (λ p. Matches p rest) whole m)
  | inl found ↦
      let head : left ≡ slash ∷ next = whole ∙ ap (λ d. d ∷ next) ((==_iff c slash).0 found) in
      let (rest', taken, m') = slash_taken next rest head m in
      rw found (
        skipped ++ slash ∷ [],
        rest',
        ap (λ t. skipped ++ t) taken ∙ sym (append_assoc skipped (slash ∷ []) rest'),
        m',
      )
]

starts_otherwise :
    (next : List ℕ) → ((later : List ℕ) → next ≢ star ∷ later) → starts_with star next ≡ false
starts_otherwise [] h = refl
starts_otherwise (c ∷ next) h = ne→== c star (λ e. h next (ap (λ d. d ∷ next) e))

-- Fuel for every character of the pattern, and one more, is enough.
glob_match_inner_complete :
    (fuel : ℕ) (pat txt : List ℕ)
    → length pat < fuel
    → Matches pat txt
    → glob_match_inner fuel pat txt ≡ true
unfolding glob_match_inner
glob_match_inner_complete zero pat txt h m = absurd (omega arith)
glob_match_inner_complete (suc fuel) pat txt h (stars all e) =
    rw e (glob_round_stars (glob_match_inner fuel) pat all)
glob_match_inner_complete (suc fuel) pat txt h (deep next left skipped rest e f k passed m) =
    let go = glob_match_inner fuel (skip_slash next) in
    let (skipped', rest', cut, m') = deep_left next left skipped rest passed m in
    let found =
      glob_match_inner_complete fuel (skip_slash next) rest'
        (omega (arith, ap length e, length-skip_slash next)) m' in
    rw e (
      glob_round_deep (glob_match_inner fuel) next txt k
      ∙ ap (try_everywhere go) (f ∙ cut)
      ∙ try_everywhere_complete go skipped' rest' found)
glob_match_inner_complete (suc fuel) pat txt h (segment next skipped rest e g f k plain m) =
    let go = glob_match_inner fuel next in
    let found = glob_match_inner_complete fuel next rest (omega (arith, ap length e)) m in
    rw e (
      glob_round_segment (glob_match_inner fuel) next txt k (starts_otherwise next g)
      ∙ ap (try_in_segment go) f
      ∙ try_in_segment_complete go skipped rest plain found)
glob_match_inner_complete (suc fuel) pat txt h (one next c rest e f ne m) =
    rw (e, f)
      (unfold glob_round in
        rw (ne→== c slash ne)
          (glob_match_inner_complete fuel next rest (omega (arith, ap length e)) m))
glob_match_inner_complete (suc fuel) pat txt h (itself next c rest e f ns nq m) =
    rw (e, f)
      (unfold glob_round in
        rw (ne→== c star ns, ne→== c question nq, ==_refl c)
          (glob_match_inner_complete fuel next rest (omega (arith, ap length e)) m))

-- glob_match answers true exactly if the pattern matches the text: `**` stands for any characters,
-- and a '/' behind it may be passed over, `*` for any but '/', `?` for one but '/', every other
-- character for itself, and at the end of the text only stars may be left of the pattern. The fuel,
-- one more than the pattern's length, is always enough.
pub glob_match_iff : (pat txt : List ℕ) → (glob_match pat txt ≡ true) ↔ Matches pat txt
unfolding glob_match
glob_match_iff pat txt = (
  (λ h. glob_match_inner_sound (length pat + 1) pat txt h),
  λ m. glob_match_inner_complete (length pat + 1) pat txt (omega arith) m,
)
