-- ===== src/Frame/Yields.antt =====
-- What holds of every value that a parser hands out, put together step by step.
use agentic_file_transfer.Base.{
  subst, ℕ, ◌≡◌, refl, List, Bool, true, false, raise_if, Result, ok, err, AftError,
}
use agentic_file_transfer.Base.Fallible.{>>=-eq-ok}
use agentic_file_transfer.Frame.Reader.{Reader, ◌>>=◌, pure, lift}

pub record Yields {ℓ κ} {A : Type ℓ} (r : Reader A) (P : A → Type κ) : Type (ℓ ⊔ κ) where
  pub holds : (buf : List ℕ) (off : ℕ) (a : A) (off' : ℕ) → r buf off ≡ ok (a, off') → P a

pub ok_inj {ℓ} : {A : Type ℓ} {x y : A} → ok x ≡ ok y → x ≡ y
ok_inj h = cc h

lift-eq-ok {ℓ} :
    {A : Type ℓ} (m : Result A) (buf : List ℕ) (off : ℕ) (a : A) (off' : ℕ)
    → lift m buf off ≡ ok (a, off')
    → m ≡ ok a
lift-eq-ok (ok b) buf off a off' h = cc h
lift-eq-ok (err e) buf off a off' h = cc h

module _ {ℓ κ μ} {A : Type ℓ} {B : Type κ} {P : B → Type μ} where
  pub Yields-bind :
      (m : Reader A) (f : A → Reader B) → ((a : A) → Yields (f a) P) → Yields (m >>= f) P
  Yields-bind m f h = record {
    holds = λ buf off b off' e.
        let (r, e1, e2) = >>=-eq-ok (m buf off) (λ r. f r.0 buf r.1) e in
        (h r.0).holds buf r.1 b off' e2;
  }

  -- Behind what reads nothing, its success is known.
  pub Yields-lift :
      (m : Result A) (f : A → Reader B)
      → ((a : A) → m ≡ ok a → Yields (f a) P)
      → Yields (lift m >>= f) P
  Yields-lift m f h = record {
    holds = λ buf off b off' e.
        let (r, e1, e2) = >>=-eq-ok (lift m buf off) (λ r. f r.0 buf r.1) e in
        (h r.0 (lift-eq-ok m buf off r.0 r.1 e1)).holds buf r.1 b off' e2;
  }

  pub Yields-knowing :
      (m : Reader A) (f : A → Reader B) (Q : A → Type μ)
      → Yields m Q
      → ((a : A) → Q a → Yields (f a) P)
      → Yields (m >>= f) P
  Yields-knowing m f Q k h = record {
    holds = λ buf off b off' e.
        let (r, e1, e2) = >>=-eq-ok (m buf off) (λ r. f r.0 buf r.1) e in
        (h r.0 (k.holds buf off r.0 r.1 e1)).holds buf r.1 b off' e2;
  }

pub Yields-pure {ℓ κ} : {A : Type ℓ} {P : A → Type κ} (a : A) → P a → Yields (pure a) P
Yields-pure {P} a p = record { holds = λ buf off b off' e. subst P (cc e) p }

pub Yields-last {ℓ κ} :
    {A : Type ℓ} {P : A → Type κ} (m : Result A) → ((a : A) → m ≡ ok a → P a) → Yields (lift m) P
Yields-last m h = record { holds = λ buf off a off' e. h a (lift-eq-ok m buf off a off' e) }

pub raise_if-eq-ok : (b : Bool) (e : AftError) (u : Unit {0}) → raise_if b e ≡ ok u → b ≡ false
raise_if-eq-ok true e u h = cc h
raise_if-eq-ok false e u h = refl
