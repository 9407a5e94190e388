-- ===== src/Microscope/Raster.antt =====
-- The readings of a scan as a raster, and what the parts of a scan that read nothing do.
use pico_cpp.Common.{ℕ, zero, suc, ◌+◌, ◌*◌, ◌<◌, ◌≡◌, ◌∙◌, refl, ap, arith, List, [], ◌∷◌, ◌++◌}
use pico_cpp.Common.{Bool, true, false, map, u16, if◌then◌else◌}
use mathlib.Core.List.{append-nil}
use pico_cpp.Microscope.Board.{Event, print, red, green, blue}
use pico_cpp.Microscope.Board.{activate_dark, activate_red, activate_blue, activate_green}
use pico_cpp.Microscope.Board.{led_bits, rounds}
use pico_cpp.Microscope.Scanner.{Config, Scan, emit, times, increase_x, decrease_x, increase_y}
use pico_cpp.Microscope.Scanner.{move_to, line_info}
use pico_cpp.Microscope.Tracking.{Seen, extend, restate, is_reading, visits, reached}
use pico_cpp.Microscope.Tracking.{visits-append, reached-append, reads_x, reads_y}
use pico_cpp.Microscope.Ways.{along_none, along, between, way}
use pico_cpp.Microscope.Steps.{increase_x-Seen, decrease_x-Seen, increase_y-Seen}
use pico_cpp.Microscope.Moves.{move_to-Seen}

-- The readings of a line: `n` points from the `j`-th, `step` apart, each read twice.
unfoldable pub row : ℕ → ℕ → ℕ → ℕ → ℕ → List (ℕ × ℕ)
row step x y j zero = []
row step x y j (suc n) =
    (u16 (x + suc j * step), y) ∷ (u16 (x + suc j * step), y) ∷ row step x y (suc j) n

-- The lines that are scanned: from line `i` up to the first at whose end `STOP_ALL` is set.
unfoldable pub lines : (ℕ → Bool) → ℕ → ℕ → List ℕ
lines stops zero i = []
lines stops (suc n) i = let rest = lines stops n (suc i) in i ∷ (if stops i then [] else rest)

-- Calls that set no output and read nothing.
abbrev pub Silent : List Event → Type 0
Silent es = (q : ℕ × ℕ) → (visits is_reading es q ≡ []) × (reached es q ≡ q)

pub print-Silent : (ws : List ℕ) → Silent (map print ws)
unfolding visits reached is_reading
print-Silent [] q = (refl, refl)
print-Silent (w ∷ ws) q = print-Silent ws q

pub line_info-Silent : (both : Bool) (zs others : List ℕ) → Silent (line_info both zs others)
unfolding visits reached is_reading line_info
line_info-Silent both [] others q = (refl, refl)
line_info-Silent true (z ∷ zs) [] q = line_info-Silent true zs [] q
line_info-Silent true (z ∷ zs) (o ∷ rest) q = line_info-Silent true zs rest q
line_info-Silent false (z ∷ zs) [] q = line_info-Silent false zs [] q
line_info-Silent false (z ∷ zs) (o ∷ rest) q = line_info-Silent false zs rest q

pub append-Silent : (es fs : List Event) → Silent es → Silent fs → Silent (es ++ fs)
append-Silent es fs e f q = (
  visits-append is_reading es fs q
      ∙ ap (λ l. l ++ visits is_reading fs (reached es q)) (e q).0
      ∙ (f (reached es q)).0,
  reached-append es fs q ∙ ap (reached fs) (e q).1 ∙ (f q).1,
)

pub red-Silent : Silent red
unfolding visits reached is_reading red activate_dark activate_red led_bits rounds
red-Silent q = (refl, refl)

pub blue-Silent : Silent blue
unfolding visits reached is_reading blue activate_dark activate_blue led_bits rounds
blue-Silent q = (refl, refl)

pub green-Silent : Silent green
unfolding visits reached is_reading green activate_dark activate_green led_bits rounds
green-Silent q = (refl, refl)

module _ {p : ℕ × ℕ} {c : Config × ℕ × ℕ} where
  pub emit-Seen :
      (es : List Event) (seen : List (ℕ × ℕ)) (x y : ℕ) (s : Scan)
      → Silent es
      → Seen is_reading p c seen x y s
      → Seen is_reading p c seen x y (emit es s)
  unfolding emit
  emit-Seen es seen x y s quiet k =
      restate
        (extend es [] x y (emit es s) k (quiet (x, y)).0 (quiet (x, y)).1 refl k.at_x k.at_y refl)
        (append-nil seen) refl refl

  pub up_x_times :
      (delay n : ℕ) (seen : List (ℕ × ℕ)) (x y : ℕ) (s : Scan)
      → x < 65536
      → Seen is_reading p c seen x y s
      → Seen is_reading p c seen (u16 (x + n)) y (times n (increase_x delay) s)
  unfolding times
  up_x_times delay zero seen x y s small k = restate k refl (omega arith) refl
  up_x_times delay (suc n) seen x y s small k =
      let one =
        increase_x-Seen delay (λ q. []) (λ v lt q. reads_x v lt q delay)
          (λ v lt q. reads_y v lt q delay) seen x y s k in
      restate
        (up_x_times delay n (seen ++ []) (u16 (x + 1)) y (increase_x delay s) (omega arith) one)
        (append-nil seen) (omega arith) refl

  pub down_x_times :
      (delay n : ℕ) (seen : List (ℕ × ℕ)) (x y : ℕ) (s : Scan)
      → x < 65536
      → Seen is_reading p c seen x y s
      → Seen is_reading p c seen (u16 (x + 65535 * n)) y (times n (decrease_x delay) s)
  unfolding times
  down_x_times delay zero seen x y s small k = restate k refl (omega arith) refl
  down_x_times delay (suc n) seen x y s small k =
      let one =
        decrease_x-Seen delay (λ q. []) (λ v lt q. reads_x v lt q delay)
          (λ v lt q. reads_y v lt q delay) seen x y s k in
      restate
        (down_x_times delay n (seen ++ []) (u16 (x + 65535)) y (decrease_x delay s) (omega arith)
          one)
        (append-nil seen) (omega arith) refl

  pub up_y_times :
      (delay n : ℕ) (seen : List (ℕ × ℕ)) (x y : ℕ) (s : Scan)
      → y < 65536
      → Seen is_reading p c seen x y s
      → Seen is_reading p c seen x (u16 (y + n)) (times n (increase_y delay) s)
  unfolding times
  up_y_times delay zero seen x y s small k = restate k refl refl (omega arith)
  up_y_times delay (suc n) seen x y s small k =
      let one =
        increase_y-Seen delay (λ q. []) (λ v lt q. reads_x v lt q delay)
          (λ v lt q. reads_y v lt q delay) seen x y s k in
      restate
        (up_y_times delay n (seen ++ []) x (u16 (y + 1)) (increase_y delay s) (omega arith) one)
        (append-nil seen) refl (omega arith)

  pub move_back :
      (delay tx ty : ℕ) (seen : List (ℕ × ℕ)) (x y : ℕ) (s : Scan)
      → x < 65536
      → y < 65536
      → tx < 65536
      → ty < 65536
      → Seen is_reading p c seen x y s
      → Seen is_reading p c seen tx ty (move_to tx ty delay s)
  unfolding way visits reached is_reading
  move_back delay tx ty seen x y s sx sy stx sty k =
      restate
        (move_to-Seen delay (λ q. []) (λ v lt q. reads_x v lt q delay)
          (λ v lt q. reads_y v lt q delay) seen x y tx ty s sx sy stx sty refl k)
        (ap (λ l. seen ++ l)
            (ap (λ l. l ++ along (λ v. []) (between y ty)) (along_none (between x tx))
              ∙ along_none (between y ty))
          ∙ append-nil seen)
        refl refl
