-- ===== src/Ssd1306/Line.antt =====
-- ssd1306_i2c.c: DrawLine. An `int` is a 32-bit word in two's complement.
use pico_cpp.Common.{
  ℕ, zero, suc, ◌+◌, ◌*◌, ◌^◌, ◌%◌, List, Option, none, some, Bool, not, ltb, ◌==◌, ◌&&◌,
}
use pico_cpp.Common.{if◌then◌else◌, u32, sub32, ◌-◌}
use pico_cpp.Ssd1306.Draw.{set_pixel}

-- `a < b` of two words as signed numbers.
abbrev pub less : ℕ → ℕ → Bool
less a b = ltb ((a + 2 ^ 31) % 2 ^ 32) ((b + 2 ^ 31) % 2 ^ 32)

abbrev pub abs : ℕ → ℕ
abs v = if less v 0 then sub32 0 v else v

-- The variables that the loop does not change.
pub record Line : Type 0 where
  pub x1 : ℕ
  pub y1 : ℕ
  pub dx : ℕ
  pub sx : ℕ
  pub dy : ℕ
  pub sy : ℕ

unfoldable pub next_x : Line → ℕ → ℕ → ℕ
next_x l x0 e2 = if not (less e2 l.dy) then u32 (x0 + l.sx) else x0

unfoldable pub next_y : Line → ℕ → ℕ → ℕ
next_y l y0 e2 = if not (less l.dx e2) then u32 (y0 + l.sy) else y0

unfoldable pub next_err : Line → ℕ → ℕ → ℕ
next_err l err e2 =
    let err = if not (less e2 l.dy) then u32 (err + l.dy) else err in
    if not (less l.dx e2) then u32 (err + l.dx) else err

-- The loop, on fuel; `none` also stands for a failed assertion of `SetPixel`.
unfoldable pub line_loop : ℕ → Line → List ℕ → ℕ → ℕ → ℕ → Bool → Option (List ℕ)
unfolding next_x next_y next_err
line_loop zero l buf x0 y0 err on = none
line_loop (suc fuel) l buf x0 y0 err on = elim (set_pixel buf x0 y0 on) [
  | none ↦ none
  | some buf ↦
      let e2 = u32 (2 * err) in
      let rest = line_loop fuel l buf (next_x l x0 e2) (next_y l y0 e2) (next_err l err e2) on in
      if (x0 == l.x1) && (y0 == l.y1) then some buf else rest
]

-- A line on the display has fewer than 160 steps.
unfoldable pub draw_line : List ℕ → ℕ → ℕ → ℕ → ℕ → Bool → Option (List ℕ)
unfolding line_loop
draw_line buf x0 y0 x1 y1 on =
    let dx = abs (sub32 x1 x0) in
    let sx : ℕ = if less x0 x1 then 1 else 2 ^ 32 - 1 in
    let dy = sub32 0 (abs (sub32 y1 y0)) in
    let sy : ℕ = if less y0 y1 then 1 else 2 ^ 32 - 1 in
    let l : Line = record { x1 = x1; y1 = y1; dx = dx; sx = sx; dy = dy; sy = sy } in
    line_loop 160 l buf x0 y0 (u32 (dx + dy)) on
