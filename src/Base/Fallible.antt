-- ===== src/Base/Fallible.antt =====
-- Sequencing of fallible steps: `?` on an `AftResult`.
use mathlib.Core.Path.{◌≡◌, refl, sym, subst}
use agentic_file_transfer.Base.Outcome.{Result, ok, err}

infixl 5 ◌>>=◌ ◌>>◌
-- The next step runs on what the first one yields; an error ends the sequence.
abbrev pub ◌>>=◌ {ℓ κ} : {A : Type ℓ} {B : Type κ} → Result A → (A → Result B) → Result B
err failure >>= next = err failure
ok found >>= next = next found

abbrev pub ◌>>◌ {κ} : {B : Type κ} → Result (Unit {0}) → Result B → Result B
check >> next = check >>= λ done. next

ok_value {ℓ} : {A : Type ℓ} {x y : A} → ok x ≡ ok y → x ≡ y
ok_value h = cc h

-- What a sequence that succeeds has gone through.
pub >>=-eq-ok {ℓ κ} :
    {A : Type ℓ} {B : Type κ} {result : B} (first : Result A) (next : A → Result B)
    → (first >>= next) ≡ ok result
    → (found : A) × (first ≡ ok found) × (next found ≡ ok result)
>>=-eq-ok (err failure) next h = cc
>>=-eq-ok (ok found) next h = (found, refl, h)

-- It yields a value.
abbrev pub Succeeds {ℓ} : {A : Type ℓ} → Result A → Type ℓ
Succeeds {A = A} result = (found : A) × (result ≡ ok found)

-- A sequence succeeds if its first step does, and the next on what that yields.
pub >>=-Succeeds {ℓ κ} :
    {A : Type ℓ} {B : Type κ} (first : Result A) (next : A → Result B) {found : A}
    → first ≡ ok found
    → Succeeds (next found)
    → Succeeds (first >>= next)
>>=-Succeeds (err failure) next h s = cc h
>>=-Succeeds (ok value) next h s = subst (λ v. Succeeds (next v)) (sym (ok_value h)) s
