-- ===== src/Ws2812/Scaled.antt =====
-- ws2812_parallel.c: the bits of one value, put into the planes of one strip.
use pico_cpp.Common.{ℕ, zero, suc, ◌+◌, ◌*◌, ◌/◌, ◌%◌, ◌^◌, ◌<◌, ◌≡◌, ◌≢◌, ◌∙◌, refl, ap, arith}
use pico_cpp.Common.{List, [], ◌∷◌, nonzero, u32, ◌<<<◌, bit_and}
use pico_cpp.Common.{length, Bool-cases, inl, inr, true, false}
use pico_cpp.Common.{lane, lane-bit_or, lane-zero, bit_and_low, eq_below, all_below}
use pico_cpp.Ws2812.Dither.{strip_value}
use pico_cpp.Ws2812.Transform.{set_plane, set_planes}
use native.Mathlib.Nat.{pow-suc}

lane-power_self : (i : ℕ) → lane (2 ^ i) i ≡ 1
lane-power_self zero = refl
lane-power_self (suc i) =
    let half : 2 ^ suc i / 2 ≡ 2 ^ i = omega (arith, pow-suc 2 i) in
    ap (λ x. lane x i) half ∙ lane-power_self i

lane-power_other : (i k : ℕ) → i ≢ k → lane (2 ^ i) k ≡ 0
lane-power_other zero zero h = absurd (h refl)
lane-power_other zero (suc k) h = lane-zero k
lane-power_other (suc i) zero h = omega (arith, pow-suc 2 i)
lane-power_other (suc i) (suc k) h =
    let half : 2 ^ suc i / 2 ≡ 2 ^ i = omega (arith, pow-suc 2 i) in
    ap (λ x. lane x k) half ∙ lane-power_other i k (λ e. h (ap suc e))

word_power : (i : ℕ) → i < 32 → u32 (1 <<< i) ≡ 2 ^ i
unfolding all_below
word_power i h = eq_below 32 (λ x. u32 (1 <<< x)) (λ x. 2 ^ x) refl i h

lane-set_plane : (p i value : ℕ) → i < 32 → lane p i ≡ 0 → lane (set_plane p i value) i ≡ value % 2
unfolding set_plane
lane-set_plane p i value h clear = elim (Bool-cases (nonzero (bit_and value 1))) [
  | inl odd ↦
      rw (set_plane, odd)
        (omega (
          arith,
          odd_one odd,
          lane-bit_or p (u32 (1 <<< i)) i,
          ap (λ x. lane x i) (word_power i h),
          lane-power_self i,
          clear,
        ))
  | inr even ↦ rw (set_plane, even) (omega (arith, even_zero even, clear))
]
  where
    odd_one : nonzero (bit_and value 1) ≡ true → value % 2 ≡ 1
    odd_one e = ground (arith, bit_and_low 1 value)

    even_zero : nonzero (bit_and value 1) ≡ false → value % 2 ≡ 0
    even_zero e = ground (arith, bit_and_low 1 value)

lane-set_plane_other : (p i k value : ℕ) → i < 32 → i ≢ k → lane (set_plane p i value) k ≡ lane p k
unfolding set_plane
lane-set_plane_other p i k value h differ = elim (Bool-cases (nonzero (bit_and value 1))) [
  | inl odd ↦
      rw (set_plane, odd)
        (omega (
          arith,
          lane-bit_or p (u32 (1 <<< i)) k,
          ap (λ x. lane x k) (word_power i h),
          lane-power_other i k differ,
        ))
  | inr even ↦ rw (set_plane, even) refl
]

-- The bits of strip `i` are clear in all planes.
abbrev pub Clear : ℕ → List ℕ → Type 0
Clear i [] = Unit
Clear i (p ∷ planes) = (lane p i ≡ 0) × Clear i planes

pub Clear-value : (i : ℕ) (planes : List ℕ) → Clear i planes → strip_value planes i ≡ 0
Clear-value i [] c = refl
Clear-value i (p ∷ planes) c =
    let first : lane p i * 2 ^ length planes ≡ 0 =
      ap (λ x. x * 2 ^ length planes) c.0 ∙ omega arith in
    omega (arith, first, Clear-value i planes c.1)

pub length-set_planes :
    (planes : List ℕ) (i value : ℕ) → length (set_planes planes i value).0 ≡ length planes
unfolding set_planes
length-set_planes [] i value = refl
length-set_planes (p ∷ planes) i value =
    let rest = length-set_planes planes i value in
    elim (Bool-cases (nonzero (set_planes planes i value).1)) [
      | inl more ↦ rw (set_planes, more) (omega (arith, rest))
      | inr ended ↦ rw (set_planes, ended) (omega (arith, rest))
    ]

place : (b h l v x p : ℕ) → b + 2 * h ≡ l → v + l * p ≡ x → b * p + v + h * (2 * p) ≡ x
place b h l v x p e f = omega (arith, ap (λ t. t * p) e, f)

-- What the planes hold and what is left of the value are the value.
pub set_planes_lem :
    (planes : List ℕ) (i value : ℕ)
    → i < 32
    → Clear i planes
    → strip_value (set_planes planes i value).0 i
        + (set_planes planes i value).1 * 2 ^ length planes
      ≡ value
unfolding set_planes
set_planes_lem [] i value h c = omega arith
set_planes_lem (p ∷ planes) i value h c =
    let r = set_planes planes i value in
    let size = length-set_planes planes i value in
    let rest = set_planes_lem planes i value h c.1 in
    let double : 2 ^ suc (length planes) ≡ 2 * 2 ^ length planes =
      omega (arith, pow-suc 2 (length planes)) in
    elim (Bool-cases (nonzero r.1)) [
      | inl more ↦
          let bit : lane (set_plane p i r.1) i + 2 * (r.1 / 2) ≡ r.1 =
            omega (arith, lane-set_plane p i r.1 h c.0) in
          rw (set_planes, more, size, double)
            (place (lane (set_plane p i r.1) i) (r.1 / 2) r.1 (strip_value r.0 i) value
              (2 ^ length planes) bit rest)
      | inr ended ↦
          let bit : lane p i + 2 * r.1 ≡ r.1 = ground (arith, c.0) in
          rw (set_planes, ended, size, double)
            (place (lane p i) r.1 r.1 (strip_value r.0 i) value (2 ^ length planes) bit rest)
    ]

pub set_planes_other :
    (planes : List ℕ) (i k value : ℕ)
    → i < 32
    → i ≢ k
    → (strip_value (set_planes planes i value).0 k ≡ strip_value planes k)
      × (Clear k planes → Clear k (set_planes planes i value).0)
unfolding set_planes
set_planes_other [] i k value h differ = (refl, λ c. c)
set_planes_other (p ∷ planes) i k value h differ =
    let r = set_planes planes i value in
    let size = length-set_planes planes i value in
    let rest = set_planes_other planes i k value h differ in
    let kept = lane-set_plane_other p i k r.1 h differ in
    elim (Bool-cases (nonzero r.1)) [
      | inl more ↦ (
        rw (set_planes, more, size, kept, rest.0) refl,
        λ c. rw (set_planes, more) (kept ∙ c.0, rest.1 c.1),
      )
      | inr ended ↦
          (rw (set_planes, ended, size, rest.0) refl, λ c. rw (set_planes, ended) (c.0, rest.1 c.1))
    ]
