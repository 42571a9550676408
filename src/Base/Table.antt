-- ===== src/Base/Table.antt =====
-- A hash map whose keys have an equality test, as an association list: the code depends on no order.
use agentic_file_transfer.Base.{
  ℕ, suc, ◌+◌, ◌≤◌, ◌<◌, ◌≡◌, refl, sym, ◌∙◌, subst, none≢some, ◌≢◌, ◌↔◌, ◌⊎◌, inl, inr, ap, Bool,
  true, false, not, ◌||◌, Option, some, none, List, [], ◌∷◌, arith, length, if◌then◌else◌, bytes_eq,
  bytes_eq→eq, bytes_eq_refl, Bool-cases, ==_iff,
}
use agentic_file_transfer.Base

-- A type of keys: the test that a lookup makes, and that it decides equality.
pub record Key {ℓ} (K : Type ℓ) : Type ℓ where
  pub same : K → K → Bool
  pub same_iff : (i j : K) → (same i j ≡ true) ↔ (i ≡ j)

abbrev pub nat_same : ℕ → ℕ → Bool
nat_same i j = Base.◌==◌ i j

infix 50 ◌==◌
abbrev pub ◌==◌ {ℓ} : {K : Type ℓ} ⦃key : Key K⦄ → K → K → Bool
◌==◌ ⦃key⦄ i j = key.same i j

instance abbrev pub nat_eq : Key ℕ
nat_eq = record { same = nat_same; same_iff = ==_iff }

pub bytes_eq_iff : (a b : List ℕ) → (bytes_eq a b ≡ true) ↔ (a ≡ b)
bytes_eq_iff a b = (bytes_eq→eq a b, λ e. rw e (bytes_eq_refl b))

instance abbrev pub bytes_key : Key (List ℕ)
bytes_key = record { same = bytes_eq; same_iff = bytes_eq_iff }

abbrev pub Table {ℓ κ} : Type ℓ → Type κ → Type (ℓ ⊔ κ)
Table K V = List (K × V)

module _ {ℓ} {K : Type ℓ} ⦃e : Key K⦄ where
  same_right : (j k i : K) → (k == i) ≡ true → (j == i) ≡ (j == k)
  same_right j k i h = let q : k ≡ i = (e.same_iff k i).0 h in rw q

  same_left : (j k i : K) → (j == k) ≡ true → (j == i) ≡ (k == i)
  same_left j k i h = let q : j ≡ k = (e.same_iff j k).0 h in rw q

  pub key_refl : (k : K) → (k == k) ≡ true
  key_refl k = (e.same_iff k k).1 refl

module _ {ℓ κ} {K : Type ℓ} ⦃e : Key K⦄ {V : Type κ} where
  -- `HashMap::get`
  unfoldable pub lookup : K → Table K V → Option V
  lookup k [] = none
  lookup k ((j, v) ∷ m) = if k == j then some v else lookup k m

  -- `HashMap::insert`
  unfoldable pub insert : K → V → Table K V → Table K V
  insert k v [] = (k, v) ∷ []
  insert k v ((j, w) ∷ m) = if k == j then (k, v) ∷ m else (j, w) ∷ insert k v m

  -- `HashMap::remove`
  unfoldable pub remove : K → Table K V → Table K V
  remove k [] = []
  remove k ((j, w) ∷ m) = let rest = remove k m in if k == j then rest else (j, w) ∷ rest

  -- `HashMap::retain`, by the value.
  unfoldable pub retain : (V → Bool) → Table K V → Table K V
  retain p [] = []
  retain p ((j, w) ∷ m) = let rest = retain p m in if p w then (j, w) ∷ rest else rest

  pub lookup-insert :
      (j k : K) (v : V) (m : Table K V)
      → lookup j (insert k v m) ≡ (if j == k then some v else lookup j m)
  unfolding lookup insert
  lookup-insert j k v [] = refl
  lookup-insert j k v ((i, w) ∷ m) =
      ground (arith, same_right j k i, same_left j k i, lookup-insert j k v m)

  pub lookup-remove :
      (j k : K) (m : Table K V) → lookup j (remove k m) ≡ (if j == k then none else lookup j m)
  unfolding lookup remove
  lookup-remove j k [] = ground arith
  lookup-remove j k ((i, w) ∷ m) =
      ground (arith, same_right j k i, same_left j k i, lookup-remove j k m)

  pub lookup-retain :
      (k : K) (p : V → Bool) (v : V) (m : Table K V)
      → lookup k m ≡ some v
      → p v ≡ true
      → lookup k (retain p m) ≡ some v
  unfolding lookup retain
  lookup-retain k p v [] h t = cc
  lookup-retain k p v ((i, w) ∷ m) h t = ground (arith, lookup-retain k p v m)

  pub length-retain : (p : V → Bool) (m : Table K V) → length (retain p m) ≤ length m
  unfolding retain
  length-retain p [] = omega arith
  length-retain p ((i, w) ∷ m) = ground (arith, length-retain p m)

  pub length-insert : (k : K) (v : V) (m : Table K V) → length (insert k v m) ≤ length m + 1
  unfolding insert
  length-insert k v [] = omega arith
  length-insert k v ((i, w) ∷ m) = ground (arith, length-insert k v m)

  pub length-insert_new :
      (k : K) (v : V) (m : Table K V) → lookup k m ≡ none → length (insert k v m) ≡ length m + 1
  unfolding lookup insert
  length-insert_new k v [] h = omega arith
  length-insert_new k v ((i, w) ∷ m) h = ground (arith, length-insert_new k v m)

  pub length-remove : (k : K) (m : Table K V) → length (remove k m) ≤ length m
  unfolding remove
  length-remove k [] = omega arith
  length-remove k ((i, w) ∷ m) = ground (arith, length-remove k m)

  -- The values of a table satisfy `p`.
  abbrev pub AllValues : (V → Bool) → Table K V → Type 0
  AllValues p [] = Unit
  AllValues p ((i, w) ∷ m) = (p w ≡ true) × AllValues p m

  pub AllValues-insert :
      (p : V → Bool) (k : K) (v : V) (m : Table K V)
      → p v ≡ true
      → AllValues p m
      → AllValues p (insert k v m)
  unfolding insert
  AllValues-insert p k v [] h a = (h, tt)
  AllValues-insert p k v ((i, w) ∷ m) h a = elim (Bool-cases (k == i)) [
    | inl e ↦ rw e (h, a.1)
    | inr e ↦ rw e (a.0, AllValues-insert p k v m h a.1)
  ]

  pub retain_all : (p : V → Bool) (m : Table K V) → AllValues p m → retain p m ≡ m
  unfolding retain
  retain_all p [] a = refl
  retain_all p ((i, w) ∷ m) a = rw a.0 (ap (λ t. (i, w) ∷ t) (retain_all p m a.1))

  -- `HashMap::contains_key`
  unfoldable pub has_key : K → Table K V → Bool
  has_key k [] = false
  has_key k ((i, w) ∷ m) = k == i || has_key k m

  pub length-remove_in :
      (k : K) (m : Table K V) → has_key k m ≡ true → length (remove k m) + 1 ≤ length m
  unfolding remove has_key
  length-remove_in k [] h = cc
  length-remove_in k ((i, w) ∷ m) h = ground (arith, length-remove k m, length-remove_in k m)

  pub length-insert_in :
      (k : K) (v : V) (m : Table K V) → has_key k m ≡ true → length (insert k v m) ≡ length m
  unfolding insert has_key
  length-insert_in k v [] h = cc
  length-insert_in k v ((i, w) ∷ m) h = ground (arith, length-insert_in k v m)

  pub lookup→has_key : (k : K) (v : V) (m : Table K V) → lookup k m ≡ some v → has_key k m ≡ true
  unfolding lookup has_key
  lookup→has_key k v [] h = cc h
  lookup→has_key k v ((i, w) ∷ m) h = ground (arith, lookup→has_key k v m)

  -- A key that an insertion leaves without a value had none.
  pub lookup-insert-none :
      (j k : K) (v : V) (m : Table K V) → lookup j (insert k v m) ≡ none → lookup j m ≡ none
  lookup-insert-none j k v m h = ground (arith, lookup-insert j k v m)

  -- Another value for a key that has one.
  pub lookup-insert_kept :
      (j k : K) (v w : V) (m : Table K V)
      → lookup k m ≡ some w
      → lookup j m ≡ none
      → lookup j (insert k v m) ≡ none
  lookup-insert_kept j k v w m there gone = elim (Bool-cases (j == k)) [
    | inl same ↦
        let here : j ≡ k = (e.same_iff j k).0 same in
        none≢some (sym gone ∙ (ap (λ i. lookup i m) here ∙ there))
    | inr other ↦ lookup-insert j k v m ∙ rw other gone
  ]

  -- A key that a removal leaves without a value is the removed one or had none.
  pub lookup-remove-none :
      (j k : K) (m : Table K V) → lookup j (remove k m) ≡ none → (j ≡ k) ⊎ (lookup j m ≡ none)
  lookup-remove-none j k m h = elim (Bool-cases (j == k)) [
    | inl same ↦ inl ((e.same_iff j k).0 same)
    | inr other ↦
        inr (
          subst (λ t. (if t then none else lookup j m) ≡ none) other
            (sym (lookup-remove j k m) ∙ h))
  ]

  pub lookup-remove_kept :
      (j k : K) (m : Table K V) → lookup j m ≡ none → lookup j (remove k m) ≡ none
  lookup-remove_kept j k m h = ground (arith, lookup-remove j k m)
