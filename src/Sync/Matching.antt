-- ===== src/Sync/Matching.antt =====
-- What a glob pattern of src/sync.rs means, and proofs from the answer of `glob_match` to the meaning.
use agentic_file_transfer.Base.{
  ℕ, zero, suc, ◌≤◌, ◌≡◌, ◌≢◌, ◌⊎◌, refl, ap, List, [], ◌∷◌, ◌++◌, Bool, true, false, arith, length,
  ◌==◌, All, Bool-cases, inl, inr, ==_iff,
}
use agentic_file_transfer.Sync.Glob.{
  star, question, slash, is_nil, starts_with, rest_of, skip_slash, skip_stars, try_everywhere,
  try_in_segment, glob_round, glob_match_inner,
}

-- `pat` matches `txt`: `**` any characters, and a '/' behind it may be passed over; `*` any but '/', `?` one
-- but '/', and every other character itself. Behind the end of the text only stars may follow.
pub data Matches : List ℕ → List ℕ → Type 0 where
  stars : {pat txt : List ℕ} → All (λ c. c ≡ b'*') pat → txt ≡ [] → Matches pat txt
  deep :
      {pat txt : List ℕ} (next left skipped rest : List ℕ)
      → pat ≡ b'*' ∷ b'*' ∷ next
      → txt ≡ skipped ++ rest
      → 1 ≤ length txt
      → (left ≡ next) ⊎ (next ≡ b'/' ∷ left)
      → Matches left rest
      → Matches pat txt
  segment :
      {pat txt : List ℕ} (next skipped rest : List ℕ)
      → pat ≡ b'*' ∷ next
      → ((later : List ℕ) → next ≢ b'*' ∷ later)
      → txt ≡ skipped ++ rest
      → 1 ≤ length txt
      → All (λ c. c ≢ b'/') skipped
      → Matches next rest
      → Matches pat txt
  one :
      {pat txt : List ℕ} (next : List ℕ) (c : ℕ) (rest : List ℕ)
      → pat ≡ b'?' ∷ next
      → txt ≡ c ∷ rest
      → c ≢ b'/'
      → Matches next rest
      → Matches pat txt
  itself :
      {pat txt : List ℕ} (next : List ℕ) (c : ℕ) (rest : List ℕ)
      → pat ≡ c ∷ next
      → txt ≡ c ∷ rest
      → c ≢ b'*'
      → c ≢ b'?'
      → Matches next rest
      → Matches pat txt

only_stars : (pat : List ℕ) → is_nil (skip_stars pat) ≡ true → All (λ c. c ≡ star) pat
unfolding skip_stars
only_stars [] h = tt
only_stars (p ∷ pat) h = elim (Bool-cases (p == star)) [
  | inl e ↦ ((==_iff p star).0 e, only_stars pat (rw e at h))
  | inr e ↦ cc (rw e at h)
]

module _ (p : List ℕ → Bool) where
  try_everywhere_sound :
      (txt : List ℕ)
      → try_everywhere p txt ≡ true
      → (skipped rest : List ℕ) × (txt ≡ skipped ++ rest) × (p rest ≡ true)
  unfolding try_everywhere
  try_everywhere_sound [] h = ([], [], refl, h)
  try_everywhere_sound (t ∷ txt) h = elim (Bool-cases (p (t ∷ txt))) [
    | inl e ↦ ([], t ∷ txt, refl, e)
    | inr e ↦
        let (skipped, rest, cut, found) = try_everywhere_sound txt (rw e at h) in
        (t ∷ skipped, rest, ap (λ u. t ∷ u) cut, found)
  ]

  try_in_segment_sound :
      (txt : List ℕ)
      → try_in_segment p txt ≡ true
      → (skipped rest : List ℕ) × (txt ≡ skipped ++ rest)
        × All (λ c. c ≢ slash) skipped
        × (p rest ≡ true)
  unfolding try_in_segment
  try_in_segment_sound [] h = ([], [], refl, tt, h)
  try_in_segment_sound (t ∷ txt) h = elim (Bool-cases (p (t ∷ txt))) [
    | inl e ↦ ([], t ∷ txt, refl, tt, e)
    | inr e ↦ elim (Bool-cases (t == slash)) [
      | inl s ↦ cc (rw (e, s) at h)
      | inr s ↦
          let (skipped, rest, cut, plain, found) = try_in_segment_sound txt (rw (e, s) at h) in
          (
            t ∷ skipped,
            rest,
            ap (λ u. t ∷ u) cut,
            ((λ q. cc ((==_iff t slash).1 q, s)), plain),
            found,
          )
    ]
  ]

starts_with_cons : (c : ℕ) (cs : List ℕ) → starts_with c cs ≡ true → cs ≡ c ∷ rest_of cs
starts_with_cons c [] h = cc h
starts_with_cons c (d ∷ ds) h = ap (λ u. u ∷ ds) ((==_iff d c).0 h)

skip_slash_left : (next : List ℕ) → (skip_slash next ≡ next) ⊎ (next ≡ slash ∷ skip_slash next)
unfolding skip_slash
skip_slash_left next = elim (Bool-cases (starts_with slash next)) [
  | inl found ↦ inr (rw found (starts_with_cons slash next found))
  | inr none_ ↦ inl (rw none_ refl)
]

not_star : (cs : List ℕ) → starts_with star cs ≡ false → (later : List ℕ) → cs ≢ star ∷ later
not_star cs h later e = cc (rw e at h)

abbrev pub OnlyMatches : (List ℕ → List ℕ → Bool) → Type 0
OnlyMatches go = (pat txt : List ℕ) → go pat txt ≡ true → Matches pat txt

glob_round_sound :
    (go : List ℕ → List ℕ → Bool) (pat txt : List ℕ)
    → OnlyMatches go
    → glob_round go pat txt ≡ true
    → Matches pat txt
unfolding glob_round
glob_round_sound go [] [] ih h = stars tt refl
glob_round_sound go [] (t ∷ txt) ih h = cc h
glob_round_sound go (p ∷ pat) [] ih h = stars (only_stars (p ∷ pat) h) refl
glob_round_sound go (p ∷ pat) (t ∷ txt) ih h = elim (Bool-cases (p == star)) [
  | inl e ↦
      let at_star : p ≡ star = (==_iff p star).0 e in
      elim (Bool-cases (starts_with star pat)) [
        | inl f ↦
            let next = skip_slash (rest_of pat) in
            let (skipped, rest, cut, found) =
              try_everywhere_sound (go next) (t ∷ txt) (rw (e, f) at h) in
            deep (rest_of pat) next skipped rest (cc (at_star, starts_with_cons star pat f)) cut
              (omega arith) (skip_slash_left (rest_of pat)) (ih next rest found)
        | inr f ↦
            let (skipped, rest, cut, plain, found) =
              try_in_segment_sound (go pat) (t ∷ txt) (rw (e, f) at h) in
            segment pat skipped rest (cc at_star) (not_star pat f) cut (omega arith) plain
              (ih pat rest found)
      ]
  | inr e ↦ elim (Bool-cases (p == question)) [
    | inl f ↦ elim (Bool-cases (t == slash)) [
      | inl g ↦ cc (rw (e, f, g) at h)
      | inr g ↦
          one pat t txt (cc ((==_iff p question).0 f)) refl (λ q. cc ((==_iff t slash).1 q, g))
            (ih pat txt (rw (e, f, g) at h))
    ]
    | inr f ↦ elim (Bool-cases (p == t)) [
      | inl g ↦
          itself pat p txt refl (cc ((==_iff p t).0 g)) (λ q. cc ((==_iff p star).1 q, e))
            (λ q. cc ((==_iff p question).1 q, f)) (ih pat txt (rw (e, f, g) at h))
      | inr g ↦ cc (rw (e, f, g) at h)
    ]
  ]
]

pub glob_match_inner_sound : (fuel : ℕ) → OnlyMatches (glob_match_inner fuel)
unfolding glob_match_inner
glob_match_inner_sound zero pat txt h = cc h
glob_match_inner_sound (suc fuel) pat txt h =
    glob_round_sound (glob_match_inner fuel) pat txt (glob_match_inner_sound fuel) h
