-- ===== src/Microscope/ScanLines.antt =====
-- Where a scan reads the converter: in a raster, each line from the same start, and back at the end.
use pico_cpp.Common.{
  ℕ, zero, suc, ◌+◌, ◌*◌, ◌<◌, ◌≡◌, ◌∙◌, refl, sym, ap, arith, List, [], ◌∷◌, ◌++◌,
}
use pico_cpp.Common.{Bool, false, Bool-cases, inl, inr, u16, u32, nonzero}
use mathlib.Core.Path.{subst}
use mathlib.Core.List.{append_assoc, append-nil}
use pico_cpp.Microscope.Board.{Event, print, print_end_line, red, green, blue}
use pico_cpp.Microscope.Scanner.{Config, Scan, emit, times, decrease_x, increase_y}
use pico_cpp.Microscope.Scanner.{move_to, stop_scan, line_info, send_line, finish_scan}
use pico_cpp.Microscope.Scanner.{scan_point, scan_line, scan_lines, start_scan_at}
use pico_cpp.Microscope.Scanner.{start_scan}
use pico_cpp.Microscope.Tracking.{Seen, extend, restate, is_reading, visits, reached}
use pico_cpp.Microscope.Ways.{along}
use pico_cpp.Microscope.Raster.{row, lines, line_info-Silent, append-Silent}
use pico_cpp.Microscope.Raster.{red-Silent, green-Silent, blue-Silent, emit-Seen, down_x_times}
use pico_cpp.Microscope.Raster.{up_y_times, move_back}
use pico_cpp.Microscope.ScanPoints.{row-Seen}

comes_back :
    (x there back : ℕ) → x < 65536 → back ≡ there → u16 (u16 (x + there) + 65535 * u32 back) ≡ x
comes_back x there back small same = omega arith

module _ (words : ℕ → List ℕ) (outside : ℕ → ℕ) {p : ℕ × ℕ} {c : Config × ℕ × ℕ} where
  send_line-Seen :
      (seen : List (ℕ × ℕ)) (x y : ℕ) (s : Scan)
      → Seen is_reading p c seen x y s
      → Seen is_reading p c seen x y (send_line s)
  unfolding send_line emit visits reached is_reading
  send_line-Seen seen x y s k =
      let info = line_info (nonzero s.conf.flag) s.vector_z s.other_info in
      let quiet =
        append-Silent info (print_end_line ∷ [])
          (line_info-Silent (nonzero s.conf.flag) s.vector_z s.other_info) (λ q. (refl, refl)) in
      restate
        (extend (info ++ (print_end_line ∷ [])) [] x y (send_line s) k (quiet (x, y)).0
          (quiet (x, y)).1 refl k.at_x k.at_y refl)
        (append-nil seen) refl refl

  -- A line ends where it has begun.
  scan_line-Seen :
      (seen : List (ℕ × ℕ)) (x y : ℕ) (s : Scan)
      → x < 65536
      → Seen is_reading p c seen x y s
      → Seen is_reading p c
          (seen ++ row c.0.between_points_x x y 0 c.0.n_points_x)
          x
          y
          (scan_line words outside s)
  unfolding scan_line
  scan_line-Seen seen x y s small k =
      let step = c.0.between_points_x in
      let n = c.0.n_points_x in
      let there : Seen is_reading p c seen (u16 (x + 0 * step)) y s =
        restate k refl (omega arith) refl in
      let far = row-Seen words outside n 0 seen x y s there in
      let seen' = seen ++ row step x y 0 n in
      let s' = times n (scan_point words outside) s in
      let back = u32 (step * n) in
      let returned =
        down_x_times c.0.delay_b back seen' (u16 (x + (0 + n) * step)) y s' (omega arith) far in
      let e : u16 (u16 (x + (0 + n) * step) + 65535 * u32 (step * n)) ≡ x =
        comes_back x ((0 + n) * step) (step * n) small (grind arith) in
      let at_s' = restate returned refl e refl in
      let fin : Scan → Scan = λ t.
        send_line (
          times (u32 (t.conf.between_points_x * t.conf.n_points_x)) (decrease_x t.conf.delay_b)
            t) in
      let same : scan_line words outside s ≡ send_line (times back (decrease_x c.0.delay_b) s') =
        ap (λ d. fin (times d.n_points_x (scan_point words outside) s)) (ap (λ t. t.0) k.keeps)
        ∙ ap
            (λ d.
              send_line (times (u32 (d.between_points_x * d.n_points_x)) (decrease_x d.delay_b) s'))
            (ap (λ t. t.0) far.keeps) in
      subst (Seen is_reading p c seen' x y) (sym same)
        (send_line-Seen seen' x y (times back (decrease_x c.0.delay_b) s') at_s')

  finish_scan-Seen :
      (seen : List (ℕ × ℕ)) (x y : ℕ) (s : Scan)
      → x < 65536
      → y < 65536
      → c.1 < 65536
      → c.2 < 65536
      → Seen is_reading p c seen x y s
      → Seen is_reading p c seen c.1 c.2 (finish_scan s)
  unfolding finish_scan stop_scan
  finish_scan-Seen seen x y s sx sy bx by k =
      let blue_done = emit-Seen blue seen x y s blue-Silent k in
      let s1 : Scan = record (emit blue s) { stop_all = false } in
      let k1 : Seen is_reading p c seen x y s1 = record {
        visited = blue_done.visited;
        stands = blue_done.stands;
        at_x = blue_done.at_x;
        at_y = blue_done.at_y;
        keeps = blue_done.keeps;
      } in
      let moved = move_back 10 c.1 c.2 seen x y s1 sx sy bx by k1 in
      let back : move_to s1.prev_x s1.prev_y 10 s1 ≡ move_to c.1 c.2 10 s1 =
        ap (λ (t : Config × ℕ × ℕ). move_to t.1 t.2 10 s1) k1.keeps in
      let at_back = subst (Seen is_reading p c seen c.1 c.2) (sym back) moved in
      let s2 : Scan = record (move_to s1.prev_x s1.prev_y 10 s1) { micro_scan = false } in
      let k2 : Seen is_reading p c seen c.1 c.2 s2 = record {
        visited = at_back.visited;
        stands = at_back.stands;
        at_x = at_back.at_x;
        at_y = at_back.at_y;
        keeps = at_back.keeps;
      } in
      emit-Seen green seen c.1 c.2 s2 green-Silent k2

  scan_lines-Seen :
      (stops : ℕ → Bool) (n i : ℕ) (seen : List (ℕ × ℕ)) (x y : ℕ) (s : Scan)
      → x < 65536
      → c.1 < 65536
      → c.2 < 65536
      → let line = λ (m : ℕ).
        row c.0.between_points_x x (u16 (y + m * c.0.between_points_y)) 0 c.0.n_points_x in
        Seen is_reading p c seen x (u16 (y + i * c.0.between_points_y)) s
        → Seen is_reading p c
            (seen ++ along line (lines stops n i))
            c.1
            c.2
            (scan_lines words outside stops n i s)
  unfolding scan_lines lines along
  scan_lines-Seen stops zero i seen x y s sx bx by k =
      restate
        (finish_scan-Seen seen x (u16 (y + i * c.0.between_points_y)) s sx (omega arith) bx by k)
        (sym (append-nil seen)) refl refl
  scan_lines-Seen stops (suc n) i seen x y s sx bx by k =
      let step = c.0.between_points_y in
      let yi = u16 (y + i * step) in
      let line = λ (m : ℕ). row c.0.between_points_x x (u16 (y + m * step)) 0 c.0.n_points_x in
      let s1 = scan_line words outside s in
      let k1 = scan_line-Seen seen x yi s sx k in
      elim (Bool-cases (stops i)) [
        | inl stop ↦
            rw (stop, scan_lines)
              (restate (finish_scan-Seen (seen ++ line i) x yi s1 sx (omega arith) bx by k1)
                (ap (λ l. seen ++ l) (sym (append-nil (line i)))) refl refl)
        | inr on ↦
            let up = up_y_times c.0.delay_f step (seen ++ line i) x yi s1 (omega arith) k1 in
            let next : u16 (u16 (y + i * step) + step) ≡ u16 (y + suc i * step) = grind arith in
            let conf = ap (λ t. t.0) k1.keeps in
            let s2 : Config → Scan = λ d. times d.between_points_y (increase_y d.delay_f) s1 in
            let k2 = restate up refl refl next in
            let rest = scan_lines-Seen stops n (suc i) (seen ++ line i) x y (s2 c.0) sx bx by k2 in
            rw (on, scan_lines)
              (subst
                (λ d.
                  Seen is_reading p c (seen ++ (line i ++ along line (lines stops n (suc i)))) c.1
                    c.2 (scan_lines words outside stops n (suc i) (s2 d)))
                (sym conf) (restate rest (append_assoc seen (line i) _) refl refl))
      ]

-- A scan that starts where the converter is reads it twice at each point of a raster, and nowhere
-- else: line `i` is `between_points_y` times `i` above the start, and its point `j` is
-- `between_points_x` times `j + 1` behind the start, both modulo 2 ^ 16. Lines are scanned up to the
-- configured number or the first at whose end `STOP_ALL` is set, and in either case the converter
-- and the scanner's position end at the start.
pub reads_raster :
    (words : ℕ → List ℕ) (outside : ℕ → ℕ) (stops : ℕ → Bool) (s : Scan)
    → s.events ≡ []
    → s.pos_x < 65536
    → s.pos_y < 65536
    → let t = start_scan words outside stops s in
      let c = s.conf in
      (visits is_reading t.events (s.pos_x, s.pos_y)
        ≡ along
            (λ i.
              row c.between_points_x s.pos_x
                (u16 (s.pos_y + i * c.between_points_y))
                0
                c.n_points_x)
            (lines stops c.n_points_y 0))
      × (reached t.events (s.pos_x, s.pos_y) ≡ (s.pos_x, s.pos_y))
      × (t.pos_x ≡ s.pos_x)
      × (t.pos_y ≡ s.pos_y)
unfolding start_scan start_scan_at visits reached is_reading
reads_raster words outside stops s none_yet sx sy =
    let c : Config × ℕ × ℕ = (s.conf, s.pos_x, s.pos_y) in
    let x = s.pos_x in
    let y = s.pos_y in
    let fresh : Scan = record s { prev_x = s.pos_x; prev_y = s.pos_y } in
    let k0 : Seen is_reading (x, y) c [] x y fresh = record {
      visited = ap (λ es. visits is_reading es (x, y)) none_yet;
      stands = ap (λ es. reached es (x, y)) none_yet;
      at_x = refl;
      at_y = refl;
      keeps = refl;
    } in
    let k1 = emit-Seen red [] x y fresh red-Silent k0 in
    let delays : List Event = print s.conf.delay_b ∷ print s.conf.delay_f ∷ [] in
    let k2 = emit-Seen delays [] x y (emit red fresh) (λ q. (refl, refl)) k1 in
    let s2 = emit delays (emit red fresh) in
    let k3 = move_back 10 x y [] x y s2 sx sy sx sy k2 in
    let s3 = move_to x y 10 s2 in
    let k3' =
      restate k3 refl refl (let e : y ≡ u16 (y + 0 * s.conf.between_points_y) = omega arith in e) in
    let k4 = scan_lines-Seen words outside stops s.conf.n_points_y 0 [] x y s3 sx sx sy k3' in
    let k =
      subst
        (λ d.
          Seen is_reading (x, y) c
            (along
              (λ i.
                row s.conf.between_points_x x (u16 (y + i * s.conf.between_points_y)) 0
                  s.conf.n_points_x)
              (lines stops s.conf.n_points_y 0))
            x y (scan_lines words outside stops d.n_points_y 0 s3))
        (sym (ap (λ t. t.0) k3.keeps)) k4 in
    (k.visited, k.stands, k.at_x, k.at_y)
