-- ===== src/Ssd1306/WholeLine.antt =====
-- ssd1306_i2c.c: DrawLine from its start, on the display.
use pico_cpp.Common.{ℕ, ◌+◌, ◌-◌, ◌*◌, ◌^◌, ◌≤◌, ◌<◌, ◌≡◌, ◌∙◌, ap, arith}
use pico_cpp.Common.{Bool, if◌then◌else◌, u32, sub32, Bool-cases, inl, inr}
use pico_cpp.Common.{List, some}
use native.Mathlib.Nat.{mul_comm}
use pico_cpp.Ssd1306.Pixels.{Frame}
use pico_cpp.Ssd1306.Line.{less, abs, Line, draw_line}
use pico_cpp.Ssd1306.Steps.{Toward, up, down, error}
use pico_cpp.Ssd1306.DrawLine.{Drawn, loop_draws}

abbrev sign : ℕ → ℕ → ℕ
sign x0 x1 = if less x0 x1 then 1 else 2 ^ 32 - 1

-- How far it is along one direction, and which way.
starts :
    (n x0 x1 : ℕ)
    → n ≤ 128
    → x0 < n
    → x1 < n
    → (w : ℕ) × (w < n) × (abs (sub32 x1 x0) ≡ w) × Toward (sign x0 x1) x0 w x1
starts n x0 x1 hn h0 h1 = elim (Bool-cases (less x0 x1)) [
  | inl up_way ↦
      let lt : x0 < x1 = ground arith in
      (x1 - x0, omega arith, ground arith, up (ground arith) (omega arith))
  | inr down_way ↦
      let ge : x1 ≤ x0 = ground arith in
      (x0 - x1, omega arith, ground arith, down (ground arith) (omega arith))
]

first_error : (w h : ℕ) → w < 128 → h < 128 → u32 (w + sub32 0 h) ≡ error w h (w * h) (h * w)
first_error w h hw hh = omega (arith, mul_comm w h)

-- Between two points of the display DrawLine ends without a failed assertion. Both points are drawn,
-- and every pixel outside the rectangle that they span stays as it was.
pub draw_line_lem :
    (buf : List ℕ) (x0 y0 x1 y1 : ℕ) (on : Bool)
    → Frame buf
    → x0 < 128
    → y0 < 32
    → x1 < 128
    → y1 < 32
    → (buf' : List ℕ) × (draw_line buf x0 y0 x1 y1 on ≡ some buf') × Drawn buf x0 y0 x1 y1 on buf'
unfolding draw_line
draw_line_lem buf x0 y0 x1 y1 on f hx0 hy0 hx1 hy1 =
    let w = starts 128 x0 x1 (omega arith) hx0 hx1 in
    let h = starts 32 y0 y1 (omega arith) hy0 hy1 in
    let l : Line = record {
      x1 = x1;
      y1 = y1;
      dx = abs (sub32 x1 x0);
      sx = sign x0 x1;
      dy = sub32 0 (abs (sub32 y1 y0));
      sy = sign y0 y1;
    } in
    loop_draws 160 l w.0 h.0 buf x0 y0 (u32 (l.dx + l.dy)) on w.0 h.0 f
      (record { here_x = hx0; here_y = hy0; end_x = hx1; end_y = hy1 })
      (record {
        width = w.2;
        height = ap (sub32 0) h.2;
        narrow = w.1;
        low = omega (arith, h.1);
        few_x = omega arith;
        few_y = omega arith;
        to_x = w.3;
        to_y = h.3;
        error_is =
            ap (λ a. u32 (a + l.dy)) w.2
            ∙ ap (λ b. u32 (w.0 + sub32 0 b)) h.2
            ∙ first_error w.0 h.0 w.1 (omega (arith, h.1));
      })
      (omega (arith, w.1, h.1))
