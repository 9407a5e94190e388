-- ===== src/Ws2812/Frames.antt =====
-- ws2812_parallel.c: dithering over several frames of the same colour.
use pico_cpp.Common.{ℕ, zero, suc, ◌+◌, ◌*◌, ◌/◌, ◌%◌, ◌^◌, ◌<◌, ◌≡◌, ◌∙◌, ap, sym, arith}
use pico_cpp.Common.{List, length, take, drop, length-append, length-take}
use pico_cpp.Common.{length-drop}
use pico_cpp.Ws2812.Planes.{add_error, add_fraction, ripple}
use pico_cpp.Ws2812.Dither.{strip_value, add_error_lem, length-ripple, length-add_fraction}

-- The state after `n` frames of the colour `s`, each dithered with the frame before.
abbrev pub after_frames : ℕ → List ℕ → List ℕ → List ℕ
after_frames zero s e = e
after_frames (suc n) s e = after_frames n s (add_error s e)

-- The sum of what the frames show: of the 12 planes the 8 highest are sent to the strips.
abbrev pub shown_sum : ℕ → List ℕ → List ℕ → ℕ → ℕ
shown_sum zero s e i = 0
shown_sum (suc n) s e i = strip_value (add_error s e) i / 2 ^ 4 + shown_sum n s (add_error s e) i

length-add_error : (s e : List ℕ) → length s ≡ 12 → length e ≡ 12 → length (add_error s e) ≡ 12
unfolding add_error
length-add_error s e hs he =
    let low = add_fraction (drop 8 s) (drop 8 e) in
    let n : length (drop 8 s) ≡ 4 = omega (arith, length-drop 8 s, hs) in
    let k : length (drop 8 e) ≡ 4 = omega (arith, length-drop 8 e, he) in
    omega (
      arith,
      length-append (ripple (take 8 s) low.1).0 low.0,
      length-ripple (take 8 s) low.1,
      length-take 8 s,
      hs,
      length-add_fraction (drop 8 s) (drop 8 e) (n ∙ sym k),
      n,
    )

one_frame :
    (c v w t f m : ℕ)
    → w ≡ (c + v % 16) % 4096
    → c + 15 < 4096
    → 16 * t + f ≡ m + w % 16
    → 16 * (w / 16 + t) + f ≡ (c + m) + v % 16
one_frame c v w t f m a small b = omega arith

-- No brightness is lost: over `n` frames of a colour that leaves room for the carry, 16 times the sum
-- of what a strip shows, with the fraction that is left, is `n` times its 12-bit colour with the
-- fraction at the start.
pub dither_exact :
    (n : ℕ) (s e : List ℕ) (i : ℕ)
    → length s ≡ 12
    → length e ≡ 12
    → strip_value s i + 15 < 2 ^ 12
    → 16 * shown_sum n s e i + strip_value (after_frames n s e) i % 2 ^ 4
      ≡ n * strip_value s i + strip_value e i % 2 ^ 4
dither_exact zero s e i hs he room = omega arith
dither_exact (suc n) s e i hs he room =
    let next = add_error s e in
    let rest = dither_exact n s next i hs (length-add_error s e hs he) room in
    let step : suc n * strip_value s i ≡ strip_value s i + n * strip_value s i = omega arith in
    one_frame (strip_value s i) (strip_value e i) (strip_value next i) (shown_sum n s next i)
      (strip_value (after_frames n s next) i % 16) (n * strip_value s i) (add_error_lem s e i hs he)
      room rest
    ∙ ap (λ x. x + strip_value e i % 16) (sym step)
