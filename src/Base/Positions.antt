-- ===== src/Base/Positions.antt =====
-- Lists position by position: slices of a list, and a list with a part written over.
use Prim.Native.Nat.{ℕ, zero, suc, ◌+◌, ◌-◌, ◌≤◌, ◌<◌}
use mathlib.Core.Path.{◌≡◌, refl, ap, sym, ◌∙◌}
use mathlib.Core.List.{List, [], ◌∷◌, ◌++◌}
use native.Mathlib.Omega.{arith}
use agentic_file_transfer.Base.Lists.{
  length, get_or, take, drop, slice, length-append, length-take, length-drop, drop-nil, drop-add,
  drop-append_self, take_all,
}

module _ {ℓ} {A : Type ℓ} where
  get_or-take :
      (n : ℕ) (xs : List A) (k : ℕ) (d : A) → k < n → get_or (take n xs) k d ≡ get_or xs k d
  get_or-take zero xs k d h = absurd (omega arith)
  get_or-take (suc n) [] k d h = refl
  get_or-take (suc n) (x ∷ xs) zero d h = refl
  get_or-take (suc n) (x ∷ xs) (suc k) d h = get_or-take n xs k d (omega arith)

  get_or-drop : (n : ℕ) (xs : List A) (k : ℕ) (d : A) → get_or (drop n xs) k d ≡ get_or xs (n + k) d
  get_or-drop zero xs k d = let e : 0 + k ≡ k = omega arith in rw e
  get_or-drop (suc n) [] k d = refl
  get_or-drop (suc n) (x ∷ xs) k d =
      let e : suc n + k ≡ suc (n + k) = omega arith in rw e (get_or-drop n xs k d)

  pub get_or-slice :
      (xs : List A) (i n k : ℕ) (d : A) → k < n → get_or (slice xs i n) k d ≡ get_or xs (i + k) d
  get_or-slice xs i n k d h = get_or-take n (drop i xs) k d h ∙ get_or-drop i xs k d

  -- `xs[i..i + ys.len()].copy_from_slice(ys)`
  abbrev pub splice : List A → ℕ → List A → List A
  splice xs i ys = take i xs ++ (ys ++ drop (i + length ys) xs)

  pub length-splice :
      (xs : List A) (i : ℕ) (ys : List A)
      → i + length ys ≤ length xs
      → length (splice xs i ys) ≡ length xs
  length-splice xs i ys h = omega (
    arith,
    length-append (take i xs) (ys ++ drop (i + length ys) xs),
    length-append ys (drop (i + length ys) xs),
    length-take i xs,
    length-drop (i + length ys) xs,
  )

  over_front :
      (ys xs : List A) (k : ℕ) (d : A)
      → k < length ys
      → get_or (ys ++ drop (length ys) xs) k d ≡ get_or ys k d
  over_front [] xs k d h = absurd (omega arith)
  over_front (y ∷ ys) xs zero d h = refl
  over_front (y ∷ ys) [] (suc k) d h =
      let e : drop (length ys) [] ≡ [] = drop-nil {A = A} (length ys) in
      rw (← e) (over_front ys [] k d (omega arith))
  over_front (y ∷ ys) (x ∷ xs) (suc k) d h = over_front ys xs k d (omega arith)

  behind_front :
      (ys xs : List A) (k : ℕ) (d : A)
      → length ys ≤ length xs
      → length ys ≤ k
      → get_or (ys ++ drop (length ys) xs) k d ≡ get_or xs k d
  behind_front [] xs k d h g = refl
  behind_front (y ∷ ys) xs zero d h g = absurd (omega arith)
  behind_front (y ∷ ys) [] (suc k) d h g = absurd (omega arith)
  behind_front (y ∷ ys) (x ∷ xs) (suc k) d h g = behind_front ys xs k d (omega arith) (omega arith)

  pub get_or-splice_in :
      (xs : List A) (i : ℕ) (ys : List A) (k : ℕ) (d : A)
      → i ≤ length xs
      → k < length ys
      → get_or (splice xs i ys) (i + k) d ≡ get_or ys k d
  get_or-splice_in xs zero ys k d h g =
      let e : 0 + k ≡ k = omega arith in
      let n : 0 + length ys ≡ length ys = omega arith in rw (e, n) (over_front ys xs k d g)
  get_or-splice_in [] (suc i) ys k d h g = absurd (omega arith)
  get_or-splice_in (x ∷ xs) (suc i) ys k d h g =
      let e : suc i + k ≡ suc (i + k) = omega arith in
      let n : suc i + length ys ≡ suc (i + length ys) = omega arith in
      rw (e, n) (get_or-splice_in xs i ys k d (omega arith) g)

  pub get_or-splice_below :
      (xs : List A) (i : ℕ) (ys : List A) (j : ℕ) (d : A)
      → i ≤ length xs
      → j < i
      → get_or (splice xs i ys) j d ≡ get_or xs j d
  get_or-splice_below xs zero ys j d h g = absurd (omega arith)
  get_or-splice_below [] (suc i) ys j d h g = absurd (omega arith)
  get_or-splice_below (x ∷ xs) (suc i) ys zero d h g = refl
  get_or-splice_below (x ∷ xs) (suc i) ys (suc j) d h g =
      let n : suc i + length ys ≡ suc (i + length ys) = omega arith in
      rw n (get_or-splice_below xs i ys j d (omega arith) (omega arith))

  pub get_or-splice_above :
      (xs : List A) (i : ℕ) (ys : List A) (j : ℕ) (d : A)
      → i + length ys ≤ length xs
      → i + length ys ≤ j
      → get_or (splice xs i ys) j d ≡ get_or xs j d
  get_or-splice_above xs zero ys j d h g =
      let n : 0 + length ys ≡ length ys = omega arith in
      rw n (behind_front ys xs j d (omega arith) (omega arith))
  get_or-splice_above [] (suc i) ys j d h g = absurd (omega arith)
  get_or-splice_above (x ∷ xs) (suc i) ys zero d h g = absurd (omega arith)
  get_or-splice_above (x ∷ xs) (suc i) ys (suc j) d h g =
      let n : suc i + length ys ≡ suc (i + length ys) = omega arith in
      rw n (get_or-splice_above xs i ys j d (omega arith) (omega arith))

  pub eq_of_get_or :
      (xs ys : List A) (d : A)
      → length xs ≡ length ys
      → ((j : ℕ) → j < length xs → get_or xs j d ≡ get_or ys j d)
      → xs ≡ ys
  eq_of_get_or [] [] d h f = refl
  eq_of_get_or [] (y ∷ ys) d h f = absurd (omega arith)
  eq_of_get_or (x ∷ xs) [] d h f = absurd (omega arith)
  eq_of_get_or (x ∷ xs) (y ∷ ys) d h f =
      let head : x ≡ y = f 0 (omega arith) in
      let tail : xs ≡ ys = eq_of_get_or xs ys d (omega arith) (λ j g. f (suc j) (omega arith)) in
      cc (head, tail)

module _ {ℓ} {A : Type ℓ} where
  pub drop-append_within :
      (n : ℕ) (xs ys : List A) → n ≤ length xs → drop n (xs ++ ys) ≡ drop n xs ++ ys
  drop-append_within zero xs ys h = refl
  drop-append_within (suc n) [] ys h = absurd (omega arith)
  drop-append_within (suc n) (x ∷ xs) ys h = drop-append_within n xs ys (omega arith)

  pub take-append_within : (n : ℕ) (xs ys : List A) → n ≤ length xs → take n (xs ++ ys) ≡ take n xs
  take-append_within zero xs ys h = refl
  take-append_within (suc n) [] ys h = absurd (omega arith)
  take-append_within (suc n) (x ∷ xs) ys h =
      ap (λ t. x ∷ t) (take-append_within n xs ys (omega arith))

  pub take-append_past :
      (k : ℕ) (xs ys : List A) → take (length xs + k) (xs ++ ys) ≡ xs ++ take k ys
  take-append_past k [] ys = let e : 0 + k ≡ k = omega arith in rw e refl
  take-append_past k (x ∷ xs) ys =
      let e : suc (length xs) + k ≡ suc (length xs + k) = omega arith in
      rw e (ap (λ t. x ∷ t) (take-append_past k xs ys))

  -- A slice of two lists that stand one behind the other, by where it lies.
  pub slice-append_first :
      (xs ys : List A) (i n : ℕ) → i + n ≤ length xs → slice (xs ++ ys) i n ≡ slice xs i n
  slice-append_first xs ys i n h =
      ap (take n) (drop-append_within i xs ys (omega arith))
      ∙ take-append_within n (drop i xs) ys (omega (arith, length-drop i xs))

  pub slice-append_second :
      (xs ys : List A) (i n : ℕ) → length xs ≤ i → slice (xs ++ ys) i n ≡ slice ys (i - length xs) n
  slice-append_second xs ys i n h =
      let e : i ≡ length xs + (i - length xs) = omega arith in
      ap (λ k. take n (drop k (xs ++ ys))) e
      ∙ ap (take n) (
          drop-add (length xs) (i - length xs) (xs ++ ys)
          ∙ ap (drop (i - length xs)) (drop-append_self xs ys))

  pub slice-append_both :
      (xs ys : List A) (i n : ℕ)
      → i ≤ length xs
      → length xs ≤ i + n
      → slice (xs ++ ys) i n ≡ slice xs i (length xs - i) ++ slice ys 0 (i + n - length xs)
  slice-append_both xs ys i n h g =
      let e : n ≡ length (drop i xs) + (i + n - length xs) = omega (arith, length-drop i xs) in
      let whole : length xs - i ≡ length (drop i xs) = omega (arith, length-drop i xs) in
      ap (take n) (drop-append_within i xs ys h)
      ∙ ap (λ k. take k (drop i xs ++ ys)) e
      ∙ take-append_past (i + n - length xs) (drop i xs) ys
      ∙ ap (λ t. t ++ take (i + n - length xs) ys)
          (sym (take_all (drop i xs)) ∙ ap (λ k. take k (drop i xs)) (sym whole))
