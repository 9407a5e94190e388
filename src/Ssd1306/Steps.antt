-- ===== src/Ssd1306/Steps.antt =====
-- ssd1306_i2c.c: the steps of DrawLine. With `r` steps left along x and `s` along y, of a line that
-- is `w` wide and `h` high, the loop's `err` is `(w + r * h) - (h + s * w)`.
use pico_cpp.Common.{ℕ, suc, ◌+◌, ◌-◌, ◌*◌, ◌%◌, ◌^◌, ◌≤◌, ◌<◌, ◌≡◌, ◌≢◌, ◌∙◌, refl, ap, arith}
use pico_cpp.Common.{true, false, ltb, u32, sub32}
use native.Mathlib.Nat.{mul-le-mul}
use pico_cpp.Ssd1306.Line.{less, Line, next_x, next_y, next_err}

-- A coordinate, the steps that are left and the end.
pub data Toward (sx x r x1 : ℕ) : Type 0 where
  up : sx ≡ 1 → x + r ≡ x1 → Toward sx x r x1
  down : sx ≡ 2 ^ 32 - 1 → x ≡ x1 + r → Toward sx x r x1

pub move :
    (sx x r x1 : ℕ) → x < 128 → x1 < 128 → Toward sx x (suc r) x1 → Toward sx (u32 (x + sx)) r x1
move sx x r x1 hx h1 (up one e) = up one (omega (arith, one, e))
move sx x r x1 hx h1 (down minus e) = down minus (omega (arith, minus, e))

pub arrived : (sx x x1 : ℕ) → Toward sx x 0 x1 → x ≡ x1
arrived sx x x1 (up one e) = omega (arith, e)
arrived sx x x1 (down minus e) = omega (arith, e)

pub away : (sx x r x1 : ℕ) → Toward sx x (suc r) x1 → x ≢ x1
away sx x r x1 (up one e) same = omega (arith, e, same)
away sx x r x1 (down minus e) same = omega (arith, e, same)

-- `err` as a word, from the two products.
abbrev pub error : ℕ → ℕ → ℕ → ℕ → ℕ
error w h rh sw = (w + rh + 2 ^ 32 - (h + sw)) % 2 ^ 32

x_moves :
    (w h rh sw : ℕ)
    → w < 20000
    → h < 20000
    → rh < 20000
    → sw < 20000
    → less (u32 (2 * error w h rh sw)) (sub32 0 h) ≡ ltb (2 * w + 2 * rh) (h + 2 * sw)
x_moves w h rh sw hw hh hr hs = ground arith

y_moves :
    (w h rh sw : ℕ)
    → w < 20000
    → h < 20000
    → rh < 20000
    → sw < 20000
    → less w (u32 (2 * error w h rh sw)) ≡ ltb (2 * h + 2 * sw) (w + 2 * rh)
y_moves w h rh sw hw hh hr hs = ground arith

pub bounded : (m n : ℕ) → m < 128 → n < 128 → m * n < 20000
bounded m n hm hn =
    let a : m ≤ 127 = omega arith in let b : n ≤ 127 = omega arith in omega (arith, mul-le-mul a b)

pub err_x :
    (w h rh rh' sw : ℕ)
    → w < 20000
    → h < 20000
    → rh < 20000
    → sw < 20000
    → rh' ≡ rh + h
    → u32 (error w h rh' sw + sub32 0 h) ≡ error w h rh sw
err_x w h rh rh' sw hw hh hr hs e = omega (arith, e)

pub err_y :
    (w h rh sw sw' : ℕ)
    → w < 20000
    → h < 20000
    → rh < 20000
    → sw < 20000
    → sw' ≡ sw + w
    → u32 (error w h rh sw' + w) ≡ error w h rh sw
err_y w h rh sw sw' hw hh hr hs e = omega (arith, e)

-- The variables of the loop with `r` and `s` steps left.
pub record At (l : Line) (w h x y err r s : ℕ) : Type 0 where
  pub width : l.dx ≡ w
  pub height : l.dy ≡ sub32 0 h
  pub narrow : w < 128
  pub low : h < 128
  pub few_x : r ≤ w
  pub few_y : s ≤ h
  pub to_x : Toward l.sx x r l.x1
  pub to_y : Toward l.sy y s l.y1
  pub error_is : err ≡ error w h (r * h) (s * w)

module _ (l : Line) (w h x y err r s : ℕ) (a : At l w h x y err r s) where
  -- Whether the loop stays where it is along x, and along y.
  pub stays_x : less (u32 (2 * err)) l.dy ≡ ltb (2 * w + 2 * (r * h)) (h + 2 * (s * w))
  stays_x =
      ap (λ e. less (u32 (2 * e)) l.dy) a.error_is
      ∙ ap (less (u32 (2 * error w h (r * h) (s * w)))) a.height
      ∙ x_moves w h (r * h) (s * w) (omega (arith, a.narrow)) (omega (arith, a.low))
          (bounded r h (omega (arith, a.few_x, a.narrow)) a.low)
          (bounded s w (omega (arith, a.few_y, a.low)) a.narrow)

  pub stays_y : less l.dx (u32 (2 * err)) ≡ ltb (2 * h + 2 * (s * w)) (w + 2 * (r * h))
  stays_y =
      ap (λ e. less l.dx (u32 (2 * e))) a.error_is
      ∙ ap (λ d. less d (u32 (2 * error w h (r * h) (s * w)))) a.width
      ∙ y_moves w h (r * h) (s * w) (omega (arith, a.narrow)) (omega (arith, a.low))
          (bounded r h (omega (arith, a.few_x, a.narrow)) a.low)
          (bounded s w (omega (arith, a.few_y, a.low)) a.narrow)

-- The three kinds of step, for the two tests of the loop.
pub both_move :
    (l : Line) (x y err e2 : ℕ)
    → less e2 l.dy ≡ false
    → less l.dx e2 ≡ false
    → (next_x l x e2 ≡ u32 (x + l.sx))
      × (next_y l y e2 ≡ u32 (y + l.sy))
      × (next_err l err e2 ≡ u32 (u32 (err + l.dy) + l.dx))
unfolding next_x next_y next_err
both_move l x y err e2 a b = (rw (next_x, a) refl, rw (next_y, b) refl, rw (next_err, a, b) refl)

pub x_moves_only :
    (l : Line) (x y err e2 : ℕ)
    → less e2 l.dy ≡ false
    → less l.dx e2 ≡ true
    → (next_x l x e2 ≡ u32 (x + l.sx))
      × (next_y l y e2 ≡ y)
      × (next_err l err e2 ≡ u32 (err + l.dy))
unfolding next_x next_y next_err
x_moves_only l x y err e2 a b = (rw (next_x, a) refl, rw (next_y, b) refl, rw (next_err, a, b) refl)

pub y_moves_only :
    (l : Line) (x y err e2 : ℕ)
    → less e2 l.dy ≡ true
    → less l.dx e2 ≡ false
    → (next_x l x e2 ≡ x)
      × (next_y l y e2 ≡ u32 (y + l.sy))
      × (next_err l err e2 ≡ u32 (err + l.dx))
unfolding next_x next_y next_err
y_moves_only l x y err e2 a b = (rw (next_x, a) refl, rw (next_y, b) refl, rw (next_err, a, b) refl)
