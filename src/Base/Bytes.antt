-- ===== src/Base/Bytes.antt =====
-- Little- and big-endian words over bytes, for every width.
use Prim.Native.Nat.{ℕ, zero, suc, ◌+◌, ◌*◌, ◌/◌, ◌%◌, ◌^◌, ◌<◌}
use mathlib.Core.Path.{◌≡◌, refl, ap, ◌∙◌}
use mathlib.Core.List.{List, [], ◌∷◌}
use native.Mathlib.Nat.{pow-suc}
use native.Mathlib.Omega.{arith}
use agentic_file_transfer.Base.Lists.{length, All}

abbrev pub IsByte : ℕ → Type 0
IsByte b = b < 256

-- `to_le_bytes` of a word of `n` bytes.
abbrev pub le_bytes : ℕ → ℕ → List ℕ
le_bytes zero v = []
le_bytes (suc n) v = v % 256 ∷ le_bytes n (v / 256)

-- `from_le_bytes`
abbrev pub le_value : List ℕ → ℕ
le_value [] = 0
le_value (b ∷ bs) = b + 256 * le_value bs

pub length-le_bytes : (n v : ℕ) → length (le_bytes n v) ≡ n
length-le_bytes zero v = refl
length-le_bytes (suc n) v = ap suc (length-le_bytes n (v / 256))

pub le_value-le_bytes : (n v : ℕ) → v < 256 ^ n → le_value (le_bytes n v) ≡ v
le_value-le_bytes zero v h = omega arith
le_value-le_bytes (suc n) v h = omega (arith, le_value-le_bytes n (v / 256) (omega arith))

pub le_bytes-IsByte : (n v : ℕ) → All IsByte (le_bytes n v)
le_bytes-IsByte zero v = tt
le_bytes-IsByte (suc n) v = (omega arith, le_bytes-IsByte n (v / 256))

pub le_value-lt : (bs : List ℕ) → All IsByte bs → le_value bs < 256 ^ length bs
le_value-lt [] h = omega arith
le_value-lt (b ∷ bs) h = rw pow-suc (omega (arith, le_value-lt bs h.1, h.0))

-- `to_be_bytes` and `from_be_bytes`
abbrev pub append_one : List ℕ → ℕ → List ℕ
append_one [] b = b ∷ []
append_one (c ∷ cs) b = c ∷ append_one cs b

abbrev pub be_bytes : ℕ → ℕ → List ℕ
be_bytes zero v = []
be_bytes (suc n) v = append_one (be_bytes n (v / 256)) (v % 256)

abbrev pub be_fold : ℕ → List ℕ → ℕ
be_fold acc [] = acc
be_fold acc (b ∷ bs) = be_fold (acc * 256 + b) bs

abbrev pub be_value : List ℕ → ℕ
be_value bs = be_fold 0 bs

length-append_one : (bs : List ℕ) (b : ℕ) → length (append_one bs b) ≡ suc (length bs)
length-append_one [] b = refl
length-append_one (c ∷ cs) b = ap suc (length-append_one cs b)

be_fold-append_one :
    (bs : List ℕ) (acc b : ℕ) → be_fold acc (append_one bs b) ≡ be_fold acc bs * 256 + b
be_fold-append_one [] acc b = refl
be_fold-append_one (c ∷ cs) acc b = be_fold-append_one cs (acc * 256 + c) b

pub length-be_bytes : (n v : ℕ) → length (be_bytes n v) ≡ n
length-be_bytes zero v = refl
length-be_bytes (suc n) v =
    length-append_one (be_bytes n (v / 256)) (v % 256) ∙ ap suc (length-be_bytes n (v / 256))

pub be_value-be_bytes : (n v : ℕ) → v < 256 ^ n → be_value (be_bytes n v) ≡ v
be_value-be_bytes zero v h = omega arith
be_value-be_bytes (suc n) v h = omega (
  arith,
  be_fold-append_one (be_bytes n (v / 256)) 0 (v % 256),
  be_value-be_bytes n (v / 256) (omega arith),
)
