-- ===== src/Ws2812/Dither.antt =====
-- ws2812_parallel.c: the planes of all strips are added at once, and each strip's value is right.
use pico_cpp.Common.{ℕ, zero, suc, ◌+◌, ◌*◌, ◌%◌, ◌^◌, ◌<◌, ◌≡◌, refl, ap, sym, ◌∙◌, arith}
use pico_cpp.Common.{List, [], ◌∷◌, ◌++◌, bit_and, bit_or, bit_xor, take, drop, length}
use pico_cpp.Common.{length-append, length-take, length-drop}
use pico_cpp.Ws2812.Planes.{add_fraction, ripple, add_error}
use pico_cpp.Common.{lane, lane_below, lane-bit_xor, lane-bit_and, lane-bit_or, lane-zero}
use native.Mathlib.Nat.{pow-suc}

-- Strip `i`'s value: its bits, the highest first.
abbrev pub strip_value : List ℕ → ℕ → ℕ
strip_value [] i = 0
strip_value (p ∷ ps) i = lane p i * 2 ^ length ps + strip_value ps i

-- One full adder, in every lane.
full_adder :
    (s e c i : ℕ)
    → lane (bit_xor (bit_xor e s) c) i + 2 * lane (bit_or (bit_and e s) (bit_and c (bit_xor s e))) i
      ≡ lane s i + lane e i + lane c i
full_adder s e c i = omega (
  arith,
  lane-bit_xor (bit_xor e s) c i,
  lane-bit_xor e s i,
  lane-bit_xor s e i,
  lane-bit_or (bit_and e s) (bit_and c (bit_xor s e)) i,
  lane-bit_and e s i,
  lane-bit_and c (bit_xor s e) i,
  lane_below s i,
  lane_below e i,
  lane_below c i,
)

half_adder : (s c i : ℕ) → lane (bit_xor s c) i + 2 * lane (bit_and c s) i ≡ lane s i + lane c i
half_adder s c i =
    omega (arith, lane-bit_xor s c i, lane-bit_and c s i, lane_below s i, lane_below c i)

pub length-ripple : (s : List ℕ) (c : ℕ) → length (ripple s c).0 ≡ length s
unfolding ripple
length-ripple [] c = refl
length-ripple (p ∷ s) c = ap suc (length-ripple s c)

pub length-add_fraction :
    (s e : List ℕ) → length s ≡ length e → length (add_fraction s e).0 ≡ length s
unfolding add_fraction
length-add_fraction [] e h = refl
length-add_fraction (p ∷ s) [] h = absurd (omega (arith, h))
length-add_fraction (p ∷ s) (q ∷ e) h = ap suc (length-add_fraction s e (omega (arith, h)))

-- Adding one place: the sums below, the sum and the carry of the place, times the place's weight.
place :
    (d k w x v x' p : ℕ) → d + 2 * k ≡ x + w → v + w * p ≡ x' → d * p + v + k * (2 * p) ≡ x * p + x'
place d k w x v x' p a b = omega (arith, ap (λ t. t * p) a, b)

top_bit : (b v p : ℕ) → b < 2 → v < p → b * p + v < 2 * p
top_bit zero v p hb hv = omega arith
top_bit (suc zero) v p hb hv = omega arith
top_bit (suc (suc b)) v p hb hv = absurd (omega arith)

ripple_lem :
    (s : List ℕ) (c i : ℕ)
    → strip_value (ripple s c).0 i + lane (ripple s c).1 i * 2 ^ length s
      ≡ strip_value s i + lane c i
unfolding ripple
ripple_lem [] c i = omega arith
ripple_lem (p ∷ s) c i =
    let r = ripple s c in
    let double : 2 ^ suc (length s) ≡ 2 * 2 ^ length s = omega (arith, pow-suc 2 (length s)) in
    rw (length-ripple s c, double)
      (omega (
        arith,
        place (lane (bit_xor p r.1) i) (lane (bit_and r.1 p) i) (lane r.1 i) (lane p i)
            (strip_value r.0 i) (strip_value s i + lane c i) (2 ^ length s) (half_adder p r.1 i)
            (ripple_lem s c i),
      ))

add_fraction_lem :
    (s e : List ℕ) (i : ℕ)
    → length s ≡ length e
    → strip_value (add_fraction s e).0 i + lane (add_fraction s e).1 i * 2 ^ length s
      ≡ strip_value s i + strip_value e i
unfolding add_fraction
add_fraction_lem [] [] i h = let none_left : lane 0 i ≡ 0 = lane-zero i in omega (arith, none_left)
add_fraction_lem [] (q ∷ e) i h = absurd (omega (arith, h))
add_fraction_lem (p ∷ s) [] i h = absurd (omega (arith, h))
add_fraction_lem (p ∷ s) (q ∷ e) i h =
    let r = add_fraction s e in
    let same : length e ≡ length s = omega (arith, h) in
    let double : 2 ^ suc (length s) ≡ 2 * 2 ^ length s = omega (arith, pow-suc 2 (length s)) in
    let sum =
      place (lane (bit_xor (bit_xor q p) r.1) i)
        (lane (bit_or (bit_and q p) (bit_and r.1 (bit_xor p q))) i) (lane r.1 i)
        (lane p i + lane q i) (strip_value r.0 i) (strip_value s i + strip_value e i) (2 ^ length s)
        (full_adder p q r.1 i) (add_fraction_lem s e i (sym same)) in
    rw (length-add_fraction s e (sym same), double, same) (omega (arith, sum))

strip_value_below : (ps : List ℕ) (i : ℕ) → strip_value ps i < 2 ^ length ps
strip_value_below [] i = omega arith
strip_value_below (p ∷ ps) i =
    let double : 2 ^ suc (length ps) ≡ 2 * 2 ^ length ps = omega (arith, pow-suc 2 (length ps)) in
    rw double (
      top_bit (lane p i) (strip_value ps i) (2 ^ length ps) (lane_below p i)
        (strip_value_below ps i))

pub below : (ps : List ℕ) (n i : ℕ) → length ps ≡ n → strip_value ps i < 2 ^ n
below ps n i h = rw (sym h) (strip_value_below ps i)

pow_fraction : (n : ℕ) → 2 ^ (n + 4) ≡ 2 ^ n * 16
pow_fraction zero = refl
pow_fraction (suc n) =
    let e : suc n + 4 ≡ suc (n + 4) = omega arith in
    rw e (omega (arith, pow-suc 2 (n + 4), pow-suc 2 n, pow_fraction n))

strip_value-append :
    (ps qs : List ℕ) (i : ℕ)
    → length qs ≡ 4
    → strip_value (ps ++ qs) i ≡ strip_value ps i * 16 + strip_value qs i
strip_value-append [] qs i h = omega arith
strip_value-append (p ∷ ps) qs i h =
    let weight : 2 ^ length (ps ++ qs) ≡ 2 ^ length ps * 16 =
      ap (λ k. 2 ^ k) (length-append ps qs ∙ ap (λ k. length ps + k) h)
      ∙ pow_fraction (length ps) in
    rw weight (omega (arith, strip_value-append ps qs i h))

take-drop : (n : ℕ) (ps : List ℕ) → take n ps ++ drop n ps ≡ ps
take-drop zero ps = refl
take-drop (suc n) [] = refl
take-drop (suc n) (p ∷ ps) = ap (λ l. p ∷ l) (take-drop n ps)

-- Dithering adds, in every strip at once, the fraction of the old value to the colour, modulo
-- 2 ^ 12: the value that a strip has in the bit planes of the result is the sum of the value in
-- those of the colour and the lowest 4 bits of that in those of the old state, for 12 planes each.
pub add_error_lem :
    (s e : List ℕ) (i : ℕ)
    → length s ≡ 12
    → length e ≡ 12
    → strip_value (add_error s e) i ≡ (strip_value s i + strip_value e i % 2 ^ 4) % 2 ^ 12
unfolding add_error
add_error_lem s e i hs he =
    let hi : List ℕ = take 8 s in
    let lo : List ℕ = drop 8 s in
    let elo : List ℕ = drop 8 e in
    let n : length lo ≡ 4 = omega (arith, length-drop 8 s, hs) in
    let k : length elo ≡ 4 = omega (arith, length-drop 8 e, he) in
    let n8 : length hi ≡ 8 = omega (arith, length-take 8 s, hs) in
    let low = add_fraction lo elo in
    let high = ripple hi low.1 in
    let nl : length low.0 ≡ 4 = length-add_fraction lo elo (n ∙ sym k) ∙ n in
    let nh : length high.0 ≡ 8 = length-ripple hi low.1 ∙ n8 in
    let a : strip_value low.0 i + lane low.1 i * 16 ≡ strip_value lo i + strip_value elo i =
      ap (λ m. strip_value low.0 i + lane low.1 i * 2 ^ m) (sym n)
      ∙ add_fraction_lem lo elo i (n ∙ sym k) in
    let b : strip_value high.0 i + lane high.1 i * 256 ≡ strip_value hi i + lane low.1 i =
      ap (λ m. strip_value high.0 i + lane high.1 i * 2 ^ m) (sym n8) ∙ ripple_lem hi low.1 i in
    let sv : strip_value s i ≡ strip_value hi i * 16 + strip_value lo i =
      ap (λ l. strip_value l i) (sym (take-drop 8 s)) ∙ strip_value-append hi lo i n in
    let ev : strip_value e i ≡ strip_value (take 8 e) i * 16 + strip_value elo i =
      ap (λ l. strip_value l i) (sym (take-drop 8 e)) ∙ strip_value-append (take 8 e) elo i k in
    let ebound : strip_value elo i < 16 = below elo 4 i k in
    let lbound : strip_value low.0 i < 16 = below low.0 4 i nl in
    let hbound : strip_value high.0 i < 256 = below high.0 8 i nh in
    strip_value-append high.0 low.0 i nl ∙ omega arith
