-- ===== src/Common/Lanes.antt =====
-- The bits of a number by their position, and the laws of exclusive or that they give.
use Prim.Native.Nat.{ℕ, zero, suc, ◌+◌, ◌/◌, ◌%◌, ◌^◌, ◌≤◌, ◌<◌, min, max, differ}
use Prim.Native.Nat.{bit_and, bit_or, bit_xor}
use mathlib.Core.Path.{◌≡◌, refl, ap, ◌∙◌}
use native.Mathlib.Nat.{pow-suc}
use native.Mathlib.Omega.{arith}
use pico_cpp.Common.Bits.{bit_and-digit, bit_or-digit, bit_xor-digit}

-- Bit `i`.
abbrev pub lane : ℕ → ℕ → ℕ
lane plane zero = plane % 2
lane plane (suc i) = lane (plane / 2) i

pub lane_below : (p i : ℕ) → lane p i < 2
lane_below p zero = omega arith
lane_below p (suc i) = lane_below (p / 2) i

differ_bits : (x y : ℕ) → x < 2 → y < 2 → differ x y ≡ (x + y) % 2
differ_bits zero zero hx hy = refl
differ_bits zero (suc zero) hx hy = refl
differ_bits (suc zero) zero hx hy = refl
differ_bits (suc zero) (suc zero) hx hy = refl
differ_bits (suc (suc x)) y hx hy = absurd (omega arith)
differ_bits x (suc (suc y)) hx hy = absurd (omega arith)

pub lane-bit_xor : (a b i : ℕ) → lane (bit_xor a b) i ≡ (lane a i + lane b i) % 2
lane-bit_xor a b zero =
    omega (arith, bit_xor-digit a b, differ_bits (a % 2) (b % 2) (omega arith) (omega arith))
lane-bit_xor a b (suc i) =
    let half : bit_xor a b / 2 ≡ bit_xor (a / 2) (b / 2) =
      omega (arith, bit_xor-digit a b, differ_bits (a % 2) (b % 2) (omega arith) (omega arith)) in
    ap (λ t. lane t i) half ∙ lane-bit_xor (a / 2) (b / 2) i

pub lane-bit_and : (a b i : ℕ) → lane (bit_and a b) i ≡ min (lane a i) (lane b i)
lane-bit_and a b zero = omega (arith, bit_and-digit a b)
lane-bit_and a b (suc i) =
    let half : bit_and a b / 2 ≡ bit_and (a / 2) (b / 2) = omega (arith, bit_and-digit a b) in
    ap (λ t. lane t i) half ∙ lane-bit_and (a / 2) (b / 2) i

pub lane-bit_or : (a b i : ℕ) → lane (bit_or a b) i ≡ max (lane a i) (lane b i)
lane-bit_or a b zero = omega (arith, bit_or-digit a b)
lane-bit_or a b (suc i) =
    let half : bit_or a b / 2 ≡ bit_or (a / 2) (b / 2) = omega (arith, bit_or-digit a b) in
    ap (λ t. lane t i) half ∙ lane-bit_or (a / 2) (b / 2) i

pub lane-zero : (i : ℕ) → lane 0 i ≡ 0
lane-zero zero = refl
lane-zero (suc i) = lane-zero i

lanes_below : (n a b : ℕ) → a ≤ n → b ≤ n → ((i : ℕ) → lane a i ≡ lane b i) → a ≡ b
lanes_below zero a b ha hb same = omega arith
lanes_below (suc n) a b ha hb same =
    let low : a % 2 ≡ b % 2 = same 0 in
    let high = lanes_below n (a / 2) (b / 2) (omega arith) (omega arith) (λ i. same (suc i)) in
    omega (arith, low, high)

-- Two numbers with the same bits are equal.
pub lanes_eq : (a b : ℕ) → ((i : ℕ) → lane a i ≡ lane b i) → a ≡ b
lanes_eq a b same = lanes_below (a + b) a b (omega arith) (omega arith) same

pub bit_xor-half : (a b : ℕ) → bit_xor a b / 2 ≡ bit_xor (a / 2) (b / 2)
bit_xor-half a b =
    omega (arith, bit_xor-digit a b, differ_bits (a % 2) (b % 2) (omega arith) (omega arith))

pub bit_xor-parity : (a b : ℕ) → bit_xor a b % 2 ≡ (a + b) % 2
bit_xor-parity a b = omega (arith, lane-bit_xor a b 0)

pub bit_xor-zero : (a : ℕ) → bit_xor a 0 ≡ a
bit_xor-zero a =
    lanes_eq (bit_xor a 0) a (λ i. omega (arith, lane-bit_xor a 0 i, lane-zero i, lane_below a i))

pub bit_xor_assoc : (a b c : ℕ) → bit_xor (bit_xor a b) c ≡ bit_xor a (bit_xor b c)
bit_xor_assoc a b c = lanes_eq (bit_xor (bit_xor a b) c) (bit_xor a (bit_xor b c)) (λ i. omega (
  arith,
  lane-bit_xor (bit_xor a b) c i,
  lane-bit_xor a b i,
  lane-bit_xor a (bit_xor b c) i,
  lane-bit_xor b c i,
))

pub bit_xor-swap : (a b c : ℕ) → bit_xor (bit_xor a b) c ≡ bit_xor (bit_xor a c) b
bit_xor-swap a b c = lanes_eq (bit_xor (bit_xor a b) c) (bit_xor (bit_xor a c) b) (λ i. omega (
  arith,
  lane-bit_xor (bit_xor a b) c i,
  lane-bit_xor a b i,
  lane-bit_xor (bit_xor a c) b i,
  lane-bit_xor a c i,
))

-- Exclusive or with one number loses nothing, on either side.
pub bit_xor-cancel : (a b c : ℕ) → bit_xor a c ≡ bit_xor b c → a ≡ b
bit_xor-cancel a b c e = lanes_eq a b (λ i. omega (
  arith,
  ap (λ x. lane x i) e,
  lane-bit_xor a c i,
  lane-bit_xor b c i,
  lane_below a i,
  lane_below b i,
  lane_below c i,
))

pub bit_xor-cancel_left : (a b c : ℕ) → bit_xor c a ≡ bit_xor c b → a ≡ b
bit_xor-cancel_left a b c e = lanes_eq a b (λ i. omega (
  arith,
  ap (λ x. lane x i) e,
  lane-bit_xor c a i,
  lane-bit_xor c b i,
  lane_below a i,
  lane_below b i,
  lane_below c i,
))

pub bit_xor-below : (k a b : ℕ) → a < 2 ^ k → b < 2 ^ k → bit_xor a b < 2 ^ k
bit_xor-below zero a b ha hb =
    let e : a ≡ 0 = omega arith in let f : b ≡ 0 = omega arith in rw (e, f) (omega arith)
bit_xor-below (suc k) a b ha hb =
    let half =
      bit_xor-below k (a / 2) (b / 2) (omega (arith, pow-suc 2 k)) (omega (arith, pow-suc 2 k)) in
    omega (arith, half, bit_xor-half a b, pow-suc 2 k)

pub lane-beyond : (k a : ℕ) → a < 2 ^ k → lane a k ≡ 0
lane-beyond zero a h = omega arith
lane-beyond (suc k) a h = lane-beyond k (a / 2) (omega (arith, pow-suc 2 k))
