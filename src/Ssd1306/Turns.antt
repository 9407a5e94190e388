-- ===== src/Ssd1306/Turns.antt =====
-- ssd1306_i2c.c: every turn of DrawLine's loop takes a step towards the end, and none past it.
use pico_cpp.Common.{ℕ, suc, ◌+◌, ◌*◌, ◌≤◌, ◌<◌, ◌≡◌, ◌∙◌, ap, sym, arith}
use pico_cpp.Common.{true, false, u32}
use mathlib.Core.Path.{subst}
use pico_cpp.Ssd1306.Line.{less, Line, next_x, next_y, next_err}
use pico_cpp.Ssd1306.Steps.{Toward, up, down, move, error, err_x, err_y, bounded, At}
use pico_cpp.Ssd1306.Steps.{both_move, x_moves_only, y_moves_only}

pub inside :
    (n sx x r x1 : ℕ) → n ≤ 128 → x < n → x1 < n → Toward sx x (suc r) x1 → u32 (x + sx) < n
inside n sx x r x1 hn hx h1 (up one e) = omega (arith, one, e)
inside n sx x r x1 hn hx h1 (down minus e) = omega (arith, minus, e)

-- The coordinates are on the display.
pub record OnDisplay (l : Line) (x y : ℕ) : Type 0 where
  pub here_x : x < 128
  pub here_y : y < 32
  pub end_x : l.x1 < 128
  pub end_y : l.y1 < 32

module _ (l : Line) (w h x y err : ℕ) (d : OnDisplay l x y) where
  one_column :
      (r s : ℕ) → At l w h x y err (suc r) s → At l w h (u32 (x + l.sx)) y (u32 (err + l.dy)) r s
  one_column r s a = record {
    width = a.width;
    height = a.height;
    narrow = a.narrow;
    low = a.low;
    few_x = omega (arith, a.few_x);
    few_y = a.few_y;
    to_x = move l.sx x r l.x1 d.here_x d.end_x a.to_x;
    to_y = a.to_y;
    error_is =
        ap (λ e. u32 (e + l.dy)) a.error_is
        ∙ ap (λ b. u32 (error w h (suc r * h) (s * w) + b)) a.height
        ∙ err_x w h (r * h) (suc r * h) (s * w) (omega (arith, a.narrow)) (omega (arith, a.low))
            (bounded r h (omega (arith, a.few_x, a.narrow)) a.low)
            (bounded s w (omega (arith, a.few_y, a.low)) a.narrow) (omega arith);
  }

  one_row :
      (r s : ℕ) → At l w h x y err r (suc s) → At l w h x (u32 (y + l.sy)) (u32 (err + l.dx)) r s
  one_row r s a = record {
    width = a.width;
    height = a.height;
    narrow = a.narrow;
    low = a.low;
    few_x = a.few_x;
    few_y = omega (arith, a.few_y);
    to_x = a.to_x;
    to_y = move l.sy y s l.y1 (omega (arith, d.here_y)) (omega (arith, d.end_y)) a.to_y;
    error_is =
        ap (λ e. u32 (e + l.dx)) a.error_is
        ∙ ap (λ b. u32 (error w h (r * h) (suc s * w) + b)) a.width
        ∙ err_y w h (r * h) (s * w) (suc s * w) (omega (arith, a.narrow)) (omega (arith, a.low))
            (bounded r h (omega (arith, a.few_x, a.narrow)) a.low)
            (bounded s w (omega (arith, a.few_y, a.low)) a.narrow) (omega arith);
  }

-- One turn: fewer steps are left, and the coordinates stay on the display.
pub record Turn (l : Line) (w h x y err r s : ℕ) : Type 0 where
  pub left_x : ℕ
  pub left_y : ℕ
  pub fewer : left_x + left_y < r + s
  pub kept_x : left_x ≤ r
  pub kept_y : left_y ≤ s
  pub on_display : OnDisplay l (next_x l x (u32 (2 * err))) (next_y l y (u32 (2 * err)))
  pub now :
      At l w h
        (next_x l x (u32 (2 * err)))
        (next_y l y (u32 (2 * err)))
        (next_err l err (u32 (2 * err)))
        left_x
        left_y

-- The state after a turn, by what it is equal to.
landed :
    (l : Line) (w h : ℕ) {x y err x' y' err' : ℕ} (r s : ℕ)
    → x ≡ x'
    → y ≡ y'
    → err ≡ err'
    → At l w h x' y' err' r s
    → At l w h x y err r s
landed l w h {y = y} {err = err} {x' = x'} {y' = y'} r s ex ey ee a =
    subst (λ t. At l w h t y err r s) (sym ex)
      (subst (λ t. At l w h x' t err r s) (sym ey) (subst (λ t. At l w h x' y' t r s) (sym ee) a))

module _ (l : Line) (w h x y err : ℕ) (d : OnDisplay l x y) where
  pub takes_both :
      (r s : ℕ)
      → At l w h x y err (suc r) (suc s)
      → less (u32 (2 * err)) l.dy ≡ false
      → less l.dx (u32 (2 * err)) ≡ false
      → Turn l w h x y err (suc r) (suc s)
  takes_both r s a go_x go_y =
      let e = both_move l x y err (u32 (2 * err)) go_x go_y in
      let x' = inside 128 l.sx x r l.x1 (omega arith) d.here_x d.end_x a.to_x in
      let y' = inside 32 l.sy y s l.y1 (omega arith) d.here_y d.end_y a.to_y in
      let mid : OnDisplay l (u32 (x + l.sx)) y = record {
        here_x = x';
        here_y = d.here_y;
        end_x = d.end_x;
        end_y = d.end_y;
      } in
      record {
        left_x = r;
        left_y = s;
        fewer = omega arith;
        kept_x = omega arith;
        kept_y = omega arith;
        on_display = record {
          here_x = omega (arith, e.0, x');
          here_y = omega (arith, e.1, y');
          end_x = d.end_x;
          end_y = d.end_y;
        };
        now = landed l w h r s e.0 e.1 e.2 (
            one_row l w h (u32 (x + l.sx)) y (u32 (err + l.dy)) mid r s
              (one_column l w h x y err d r (suc s) a));
      }

  pub takes_column :
      (r s : ℕ)
      → At l w h x y err (suc r) s
      → less (u32 (2 * err)) l.dy ≡ false
      → less l.dx (u32 (2 * err)) ≡ true
      → Turn l w h x y err (suc r) s
  takes_column r s a go_x stay_y =
      let e = x_moves_only l x y err (u32 (2 * err)) go_x stay_y in
      let x' = inside 128 l.sx x r l.x1 (omega arith) d.here_x d.end_x a.to_x in
      record {
        left_x = r;
        left_y = s;
        fewer = omega arith;
        kept_x = omega arith;
        kept_y = omega arith;
        on_display = record {
          here_x = omega (arith, e.0, x');
          here_y = omega (arith, e.1, d.here_y);
          end_x = d.end_x;
          end_y = d.end_y;
        };
        now = landed l w h r s e.0 e.1 e.2 (one_column l w h x y err d r s a);
      }

  pub takes_row :
      (r s : ℕ)
      → At l w h x y err r (suc s)
      → less (u32 (2 * err)) l.dy ≡ true
      → less l.dx (u32 (2 * err)) ≡ false
      → Turn l w h x y err r (suc s)
  takes_row r s a stay_x go_y =
      let e = y_moves_only l x y err (u32 (2 * err)) stay_x go_y in
      let y' = inside 32 l.sy y s l.y1 (omega arith) d.here_y d.end_y a.to_y in
      record {
        left_x = r;
        left_y = s;
        fewer = omega arith;
        kept_x = omega arith;
        kept_y = omega arith;
        on_display = record {
          here_x = omega (arith, e.0, d.here_x);
          here_y = omega (arith, e.1, y');
          end_x = d.end_x;
          end_y = d.end_y;
        };
        now = landed l w h r s e.0 e.1 e.2 (one_row l w h x y err d r s a);
      }
