-- ===== src/Server/Dotless.antt =====
-- Proofs on the text of the paths of src/aftp/server.rs.
use agentic_file_transfer.Base.{
  true≢false, and_false, ℕ, ◌≡◌, ◌≢◌, refl, sym, ap, ◌∙◌, inl, inr, List, [], ◌∷◌, Bool, true,
  false, ◌&&◌, ◌||◌, arith, ◌==◌, if◌then◌else◌, Bool-cases, All, All-append,
}
use agentic_file_transfer.Server.Rooted.{
  Components, starts_dot, has_dots, trim_slashes, replace_backslashes, onto_first, split_slashes,
  is_name, only_names, components, is_absolute, join,
}

or_false_left : (a b : Bool) → (a || b) ≡ false → a ≡ false
or_false_left true b e = e
or_false_left false b e = refl

or_false_right : (a b : Bool) → (a || b) ≡ false → b ≡ false
or_false_right true b e = cc e
or_false_right false b e = e

or_false : (a b : Bool) → a ≡ false → b ≡ false → (a || b) ≡ false
or_false true b e f = e
or_false false b e f = f

trim-no_dots : (s : List ℕ) → has_dots s ≡ false → has_dots (trim_slashes s) ≡ false
trim-no_dots [] h = refl
trim-no_dots (x ∷ xs) h = elim (Bool-cases (x == 47)) [
  | inl slash ↦
      rw slash (trim-no_dots xs (or_false_right (x == 46 && starts_dot xs) (has_dots xs) h))
  | inr other ↦ rw other h
]

replace-starts_dot : (s : List ℕ) → starts_dot (replace_backslashes s) ≡ starts_dot s
replace-starts_dot [] = refl
replace-starts_dot (x ∷ xs) = ground arith

replace-has_dots : (s : List ℕ) → has_dots (replace_backslashes s) ≡ has_dots s
replace-has_dots [] = refl
replace-has_dots (x ∷ xs) =
    rw (replace-has_dots xs, replace-starts_dot xs)
      (ap (λ b. (b && starts_dot xs) || has_dots xs) (dot x))
  where
    dot : (x : ℕ) → ((if x == 92 then 47 else x) == 46) ≡ (x == 46)
    dot x = ground arith

first_of : Components → List ℕ
first_of [] = []
first_of (c ∷ cs) = c

onto_first-starts_dot :
    (x : ℕ) (cs : Components) → starts_dot (first_of (onto_first x cs)) ≡ (x == 46)
unfolding first_of
onto_first-starts_dot x [] = refl
onto_first-starts_dot x (c ∷ cs) = refl

split-starts_dot : (s : List ℕ) → starts_dot (first_of (split_slashes s)) ≡ starts_dot s
unfolding first_of
split-starts_dot [] = refl
split-starts_dot (x ∷ xs) = elim (Bool-cases (x == 47)) [
  | inl slash ↦ rw slash (ground arith)
  | inr other ↦ rw other (onto_first-starts_dot x (split_slashes xs))
]

abbrev NoDots : List ℕ → Type 0
NoDots c = has_dots c ≡ false

onto_first-NoDots :
    (x : ℕ) (cs : Components) (xs : List ℕ)
    → starts_dot (first_of cs) ≡ starts_dot xs
    → (x == 46 && starts_dot xs) ≡ false
    → All NoDots cs
    → All NoDots (onto_first x cs)
unfolding first_of
onto_first-NoDots x [] xs same h a =
    (or_false ((x == 46) && false) false (and_false (x == 46)) refl, tt)
onto_first-NoDots x (c ∷ cs) xs same h a =
    (or_false (x == 46 && starts_dot c) (has_dots c) (ap (λ b. x == 46 && b) same ∙ h) a.0, a.1)

split-NoDots : (s : List ℕ) → has_dots s ≡ false → All NoDots (split_slashes s)
split-NoDots [] h = (refl, tt)
split-NoDots (x ∷ xs) h = elim (Bool-cases (x == 47)) [
  | inl slash ↦
      rw slash (refl, split-NoDots xs (or_false_right (x == 46 && starts_dot xs) (has_dots xs) h))
  | inr other ↦ rw other (
      onto_first-NoDots x (split_slashes xs) xs (split-starts_dot xs)
        (or_false_left (x == 46 && starts_dot xs) (has_dots xs) h)
        (split-NoDots xs (or_false_right (x == 46 && starts_dot xs) (has_dots xs) h)))
]

-- A component that does not lead up.
abbrev pub IsDown : List ℕ → Type 0
IsDown c = c ≢ (46 ∷ 46 ∷ [])

NoDots-IsDown : (c : List ℕ) → NoDots c → IsDown c
NoDots-IsDown c h e = true≢false (ap has_dots (sym e) ∙ h)

only_names-IsDown : (cs : Components) → All NoDots cs → All IsDown (only_names cs)
only_names-IsDown [] a = tt
only_names-IsDown (c ∷ cs) a = elim (Bool-cases (is_name c)) [
  | inl name ↦ rw name (NoDots-IsDown c a.0, only_names-IsDown cs a.1)
  | inr none ↦ rw none (only_names-IsDown cs a.1)
]

pub join-IsDown :
    (root : Components) (requested : List ℕ)
    → All IsDown root
    → has_dots requested ≡ false
    → All IsDown (join root (replace_backslashes (trim_slashes requested)))
unfolding join
join-IsDown root requested down h =
    let clean = replace_backslashes (trim_slashes requested) in
    let names =
      only_names-IsDown (split_slashes clean) (
        split-NoDots clean
          (replace-has_dots (trim_slashes requested) ∙ trim-no_dots requested h)) in
    elim (Bool-cases (is_absolute clean)) [
      | inl absolute ↦ rw absolute names
      | inr relative ↦ rw relative (All-append IsDown root (components clean) down names)
    ]
