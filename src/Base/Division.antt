-- ===== src/Base/Division.antt =====
-- Division rounded up: Rust's `div_ceil`.
use Prim.Native.Nat.{ℕ, ◌+◌, ◌*◌, ◌/◌, ◌%◌, ◌≤◌, ◌<◌}
use mathlib.Core.Path.{◌≡◌}
use mathlib.Core.Logic.{◌≢◌, inl, inr}
use native.Mathlib.Nat.{div-add-mod, mod-lt}
use native.Mathlib.Omega.{arith}
use agentic_file_transfer.Base.Tests.{◌==◌, ==_iff, Bool-cases, if◌then◌else◌}

unfoldable pub div_ceil : ℕ → ℕ → ℕ
div_ceil a b = if a % b == 0 then a / b else a / b + 1

-- It is the number of parts of size `b` that cover `a` with none left over …
pub div_ceil_covers : (a b : ℕ) → 1 ≤ b → (a ≤ div_ceil a b * b) × (div_ceil a b * b < a + b)
unfolding div_ceil
div_ceil_covers a b h = elim (Bool-cases (a % b == 0)) [
  | inl e ↦
      let none_left : a % b ≡ 0 = (==_iff (a % b) 0).0 e in
      rw e (omega (arith, div-add-mod a b), omega (arith, div-add-mod a b))
  | inr e ↦
      let some_left : a % b ≢ 0 = λ z. cc ((==_iff (a % b) 0).1 z) in
      rw e (omega (arith, div-add-mod a b, mod-lt a h), omega (arith, div-add-mod a b))
]

below_of_mul : (m n b : ℕ) → m * b < n * b + b → m ≤ n
below_of_mul m n b h = grind arith

-- … and the only such number.
pub div_ceil_unique : (a b n : ℕ) → a ≤ n * b → n * b < a + b → n ≡ div_ceil a b
div_ceil_unique a b n lo hi =
    let (l, h) = div_ceil_covers a b (omega arith) in
    omega (
      arith,
      below_of_mul n (div_ceil a b) b (omega arith),
      below_of_mul (div_ceil a b) n b (omega arith),
    )
