-- ===== src/Microscope/ScanPoints.antt =====
-- The points of a line of the scan.
use pico_cpp.Common.{ℕ, zero, suc, ◌+◌, ◌*◌, ◌<◌, ◌≡◌, refl, sym, ap, arith, List, [], ◌∷◌, ◌++◌}
use pico_cpp.Common.{Bool-cases, inl, inr, u16}
use mathlib.Core.Path.{subst}
use mathlib.Core.List.{append_assoc, append-nil}
use pico_cpp.Microscope.Board.{sleep_ms, active_port}
use pico_cpp.Microscope.Scanner.{Config, Scan, Adc, emit, times, increase_x}
use pico_cpp.Microscope.Scanner.{convert}
use pico_cpp.Microscope.Scanner.{keep_reading, scan_point}
use pico_cpp.Microscope.Scanner.{get_values_from_adc, get_result_from_adc, com_receive_isr}
use pico_cpp.Microscope.Tracking.{Seen, extend, restate, is_reading, visits, reached}
use pico_cpp.Microscope.Raster.{row, print-Silent}
use pico_cpp.Microscope.Raster.{emit-Seen, up_x_times}

-- A conversion reads once, whatever the state of the converter.
reads_once :
    (ws : List ℕ) (adc : Adc) (q : ℕ × ℕ)
    → (visits is_reading (get_values_from_adc ws adc).1 q ≡ q ∷ [])
      × (reached (get_values_from_adc ws adc).1 q ≡ q)
unfolding get_values_from_adc get_result_from_adc com_receive_isr visits reached is_reading
    active_port
reads_once ws adc q = elim (Bool-cases adc.z_state) [
  | inl z ↦ rw z (ap (λ l. q ∷ l) (print-Silent ws q).0, (print-Silent ws q).1)
  | inr plain ↦ rw plain (refl, refl)
]

module _ (words : ℕ → List ℕ) (outside : ℕ → ℕ) {p : ℕ × ℕ} {c : Config × ℕ × ℕ} where
  convert-Seen :
      (seen : List (ℕ × ℕ)) (x y : ℕ) (s : Scan)
      → Seen is_reading p c seen x y s
      → Seen is_reading p c (seen ++ (x, y) ∷ []) x y (convert words outside s)
  unfolding convert emit
  convert-Seen seen x y s k =
      let once = reads_once (words s.conversions) s.adc (x, y) in
      extend (get_values_from_adc (words s.conversions) s.adc).1 ((x, y) ∷ []) x y
        (convert words outside s) k once.0 once.1 refl k.at_x k.at_y refl

  keep_reading-Seen :
      (seen : List (ℕ × ℕ)) (x y : ℕ) (s : Scan)
      → Seen is_reading p c seen x y s
      → Seen is_reading p c seen x y (keep_reading words outside s)
  unfolding keep_reading
  keep_reading-Seen seen x y s k = record {
    visited = k.visited;
    stands = k.stands;
    at_x = k.at_x;
    at_y = k.at_y;
    keeps = k.keeps;
  }

  scan_point-Seen :
      (seen : List (ℕ × ℕ)) (x y : ℕ) (s : Scan)
      → x < 65536
      → Seen is_reading p c seen x y s
      → let x' = u16 (x + c.0.between_points_x) in
        Seen is_reading p c (seen ++ (x', y) ∷ (x', y) ∷ []) x' y (scan_point words outside s)
  unfolding scan_point visits reached is_reading
  scan_point-Seen seen x y s small k =
      let x' = u16 (x + c.0.between_points_x) in
      let rest : Scan → Scan = λ t.
        keep_reading words outside
          (convert words outside (convert words outside (emit (sleep_ms 50 ∷ []) t))) in
      let stepped : Config → Scan = λ d. times d.between_points_x (increase_x d.delay_f) s in
      let moved = up_x_times c.0.delay_f c.0.between_points_x seen x y s small k in
      let slept = emit-Seen (sleep_ms 50 ∷ []) seen x' y (stepped c.0) (λ q. (refl, refl)) moved in
      let first = convert-Seen seen x' y _ slept in
      let second = convert-Seen (seen ++ (x', y) ∷ []) x' y _ first in
      let whole = keep_reading-Seen ((seen ++ (x', y) ∷ []) ++ (x', y) ∷ []) x' y _ second in
      subst (λ d. Seen is_reading p c (seen ++ (x', y) ∷ (x', y) ∷ []) x' y (rest (stepped d)))
        (sym (ap (λ t. t.0) k.keeps))
        (restate whole (append_assoc seen ((x', y) ∷ []) ((x', y) ∷ [])) refl refl)

  pub row-Seen :
      (n j : ℕ) (seen : List (ℕ × ℕ)) (x y : ℕ) (s : Scan)
      → let step = c.0.between_points_x in
        Seen is_reading p c seen (u16 (x + j * step)) y s
        → Seen is_reading p c
            (seen ++ row step x y j n)
            (u16 (x + (j + n) * step))
            y
            (times n (scan_point words outside) s)
  unfolding times row
  row-Seen zero j seen x y s k =
      restate k (sym (append-nil seen)) (let e : j + 0 ≡ j = omega arith in rw e refl) refl
  row-Seen (suc n) j seen x y s k =
      let step = c.0.between_points_x in
      let next : u16 (u16 (x + j * step) + step) ≡ u16 (x + suc j * step) = grind arith in
      let on : suc j + n ≡ j + suc n = omega arith in
      let x' = u16 (x + suc j * step) in
      let one = scan_point-Seen seen (u16 (x + j * step)) y s (omega arith) k in
      let one' = restate one (ap (λ v. seen ++ (v, y) ∷ (v, y) ∷ []) next) next refl in
      let rest =
        row-Seen n (suc j) (seen ++ (x', y) ∷ (x', y) ∷ []) x y (scan_point words outside s) one' in
      restate rest (append_assoc seen ((x', y) ∷ (x', y) ∷ []) (row step x y (suc j) n))
        (ap (λ m. u16 (x + m * step)) on) refl
