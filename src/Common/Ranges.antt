-- ===== src/Common/Ranges.antt =====
-- Facts about every value of a small range, checked by evaluation.
use Prim.Native.Nat.{ℕ, zero, suc, ◌<◌}
use mathlib.Core.Path.{◌≡◌}
use mathlib.Core.Logic.{inl, inr}
use mathlib.Core.Bool.{Bool, true, false}
use native.Mathlib.Omega.{arith}
use pico_cpp.Common.Tests.{◌==◌, ==_iff, Bool-cases, if◌then◌else◌}

unfoldable pub all_below : ℕ → (ℕ → Bool) → Bool
all_below zero test = true
all_below (suc last) test = if all_below last test then test last else false

-- The last value is tested itself, the others by what is below it.
pub all_below_at :
    (bound : ℕ) (test : ℕ → Bool)
    → all_below bound test ≡ true
    → (k : ℕ) → k < bound
    → test k ≡ true
unfolding all_below
all_below_at zero test passed k small = absurd (omega arith)
all_below_at (suc last) test passed k small = elim (Bool-cases (all_below last test)) [
  | inl rest ↦ elim (Bool-cases (k == last)) [
    | inl here ↦ ground arith
    | inr below ↦ all_below_at last test rest k (ground arith)
  ]
  | inr fails ↦ ground arith
]

-- Two functions that agree by evaluation below `n` are equal there.
pub eq_below :
    (n : ℕ) (f g : ℕ → ℕ) → all_below n (λ x. f x == g x) ≡ true → (x : ℕ) → x < n → f x ≡ g x
eq_below n f g h x lt = (==_iff (f x) (g x)).0 (all_below_at n (λ y. f y == g y) h x lt)
