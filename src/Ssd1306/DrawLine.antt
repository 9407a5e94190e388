-- ===== src/Ssd1306/DrawLine.antt =====
-- ssd1306_i2c.c: DrawLine ends, draws both ends of the line, and nothing outside their rectangle.
use pico_cpp.Common.{ℕ, zero, suc, ◌+◌, ◌*◌, ◌≤◌, ◌<◌, ◌≡◌, ◌≢◌, ◌⊎◌, ◌∙◌, refl, ap, sym, arith}
use pico_cpp.Common.{Bool, true, false, ltb, u32, Bool-cases, inl, inr}
use pico_cpp.Common.{List, some, ◌==◌, ◌&&◌, ==_iff}
use pico_cpp.Ssd1306.Draw.{set_pixel}
use pico_cpp.Ssd1306.Pixels.{Frame, Painted, set_pixel_lem, pixel, one_if}
use pico_cpp.Ssd1306.Line.{Line, next_x, next_y, next_err, line_loop}
use pico_cpp.Ssd1306.Steps.{Toward, up, down, arrived, At, stays_x, stays_y}
use pico_cpp.Ssd1306.Turns.{Turn, OnDisplay, takes_both, takes_column, takes_row}

-- While steps are left a turn takes one: along the only direction that is left, or along either.
turn :
    (l : Line) (w h x y err r s : ℕ)
    → OnDisplay l x y
    → At l w h x y err r s
    → 0 < r + s
    → Turn l w h x y err r s
turn l w h x y err zero zero d a more = absurd (omega arith)
turn l w h x y err (suc r) zero d a more =
    let go_x : ltb (2 * w + 2 * (suc r * h)) (h + 2 * (0 * w)) ≡ false = ground arith in
    let wide = a.few_x in
    let stay_y : ltb (2 * h + 2 * (0 * w)) (w + 2 * (suc r * h)) ≡ true = ground arith in
    takes_column l w h x y err d r 0 a (stays_x l w h x y err (suc r) 0 a ∙ go_x)
      (stays_y l w h x y err (suc r) 0 a ∙ stay_y)
turn l w h x y err zero (suc s) d a more =
    let high = a.few_y in
    let stay_x : ltb (2 * w + 2 * (0 * h)) (h + 2 * (suc s * w)) ≡ true = ground arith in
    let go_y : ltb (2 * h + 2 * (suc s * w)) (w + 2 * (0 * h)) ≡ false = ground arith in
    takes_row l w h x y err d 0 s a (stays_x l w h x y err 0 (suc s) a ∙ stay_x)
      (stays_y l w h x y err 0 (suc s) a ∙ go_y)
turn l w h x y err (suc r) (suc s) d a more =
    let sx = stays_x l w h x y err (suc r) (suc s) a in
    let sy = stays_y l w h x y err (suc r) (suc s) a in
    let rh = suc r * h in
    let sw = suc s * w in
    elim (Bool-cases (ltb (2 * w + 2 * rh) (h + 2 * sw))) [
      | inl stay_x ↦
          let go_y : ltb (2 * h + 2 * sw) (w + 2 * rh) ≡ false = ground arith in
          takes_row l w h x y err d (suc r) s a (sx ∙ stay_x) (sy ∙ go_y)
      | inr go_x ↦ elim (Bool-cases (ltb (2 * h + 2 * sw) (w + 2 * rh))) [
        | inl stay_y ↦ takes_column l w h x y err d r (suc s) a (sx ∙ go_x) (sy ∙ stay_y)
        | inr go_y ↦ takes_both l w h x y err d r s a (sx ∙ go_x) (sy ∙ go_y)
      ]
    ]

-- A coordinate that is on neither side of the way from `x` to `x1`.
pub data Outside (x x1 x' : ℕ) : Type 0 where
  before : x' < x → x' < x1 → Outside x x1 x'
  behind : x < x' → x1 < x' → Outside x x1 x'

-- What a line from `(x, y)` to `(x1, y1)` does to the frame.
pub record Drawn (buf : List ℕ) (x y x1 y1 : ℕ) (on : Bool) (buf' : List ℕ) : Type 0 where
  pub frame : Frame buf'
  pub from : pixel buf' x y ≡ one_if on
  pub to : pixel buf' x1 y1 ≡ one_if on
  pub drawn_stays :
      (px py : ℕ) → px < 128 → pixel buf px py ≡ one_if on → pixel buf' px py ≡ one_if on
  pub outside :
      (px py : ℕ)
      → px < 128
      → Outside x x1 px ⊎ Outside y y1 py
      → pixel buf' px py ≡ pixel buf px py

further :
    (sx x r x' r' x1 p : ℕ)
    → Toward sx x r x1
    → Toward sx x' r' x1
    → r' ≤ r
    → Outside x x1 p
    → Outside x' x1 p
further sx x r x' r' x1 p (up one e) (up one' e') h (before a b) = before (omega (arith, e, e')) b
further sx x r x' r' x1 p (up one e) (up one' e') h (behind a b) = behind (omega (arith, e, e')) b
further sx x r x' r' x1 p (up one e) (down m e') h o = absurd (omega (arith, one, m))
further sx x r x' r' x1 p (down m e) (up one e') h o = absurd (omega (arith, one, m))
further sx x r x' r' x1 p (down m e) (down m' e') h (before a b) = before (omega (arith, e, e')) b
further sx x r x' r' x1 p (down m e) (down m' e') h (behind a b) = behind (omega (arith, e, e')) b

differs : (x x1 p : ℕ) → Outside x x1 p → p ≢ x
differs x x1 p (before a b) e = omega (arith, e)
differs x x1 p (behind a b) e = omega (arith, e)

-- Painting a pixel leaves the pixels that have its colour already.
paint_keeps :
    (buf buf' : List ℕ) (x y px py : ℕ) (on : Bool)
    → Painted buf x y on buf'
    → px < 128
    → pixel buf px py ≡ one_if on
    → pixel buf' px py ≡ one_if on
paint_keeps buf buf' x y px py on p h e = elim (Bool-cases (px == x)) [
  | inr other ↦ p.elsewhere px py h (inl (ground arith)) ∙ e
  | inl same_x ↦ elim (Bool-cases (py == y)) [
    | inr other ↦ p.elsewhere px py h (inr (ground arith)) ∙ e
    | inl same_y ↦
        let ex : px ≡ x = (==_iff px x).0 same_x in
        let ey : py ≡ y = (==_iff py y).0 same_y in
        ap (λ a. pixel buf' a py) ex ∙ ap (λ b. pixel buf' x b) ey ∙ p.here
  ]
]

-- The loop's test for the end.
steps_left :
    (l : Line) (w h x y err r s : ℕ)
    → At l w h x y err r s
    → (x == l.x1) && (y == l.y1) ≡ false
    → 0 < r + s
steps_left l w h x y err zero zero a goes =
    let ex = arrived l.sx x l.x1 a.to_x in
    let ey = arrived l.sy y l.y1 a.to_y in absurd (ground arith)
steps_left l w h x y err zero (suc s) a goes = omega arith
steps_left l w h x y err (suc r) s a goes = omega arith

loop_ends :
    (fuel : ℕ) (l : Line) (buf buf₁ : List ℕ) (x y err : ℕ) (on : Bool)
    → set_pixel buf x y on ≡ some buf₁
    → (x == l.x1) && (y == l.y1) ≡ true
    → line_loop (suc fuel) l buf x y err on ≡ some buf₁
unfolding line_loop
loop_ends fuel l buf buf₁ x y err on e done = rw (line_loop, e, done) refl

loop_goes :
    (fuel : ℕ) (l : Line) (buf buf₁ : List ℕ) (x y err : ℕ) (on : Bool)
    → set_pixel buf x y on ≡ some buf₁
    → (x == l.x1) && (y == l.y1) ≡ false
    → line_loop (suc fuel) l buf x y err on
      ≡ line_loop fuel l buf₁
          (next_x l x (u32 (2 * err)))
          (next_y l y (u32 (2 * err)))
          (next_err l err (u32 (2 * err)))
          on
unfolding line_loop
loop_goes fuel l buf buf₁ x y err on e goes = rw (line_loop, e, goes) refl

pub loop_draws :
    (fuel : ℕ) (l : Line) (w h : ℕ) (buf : List ℕ) (x y err : ℕ) (on : Bool) (r s : ℕ)
    → Frame buf
    → OnDisplay l x y
    → At l w h x y err r s
    → r + s < fuel
    → (buf' : List ℕ) × (line_loop fuel l buf x y err on ≡ some buf')
      × Drawn buf x y l.x1 l.y1 on buf'
loop_draws zero l w h buf x y err on r s f d a enough = absurd (omega arith)
loop_draws (suc fuel) l w h buf x y err on r s f d a enough =
    let p = set_pixel_lem buf x y on f d.here_x d.here_y in
    elim (Bool-cases ((x == l.x1) && (y == l.y1))) [
      | inl done ↦
          let ex : x ≡ l.x1 = ground arith in
          let ey : y ≡ l.y1 = ground arith in
          (
            p.0,
            loop_ends fuel l buf p.0 x y err on p.1 done,
            record {
              frame = (p.2).frame;
              from = (p.2).here;
              to =
                  ap (λ b. pixel p.0 b l.y1) (sym ex)
                  ∙ ap (λ b. pixel p.0 x b) (sym ey)
                  ∙ (p.2).here;
              drawn_stays = λ px py hx e. paint_keeps buf p.0 x y px py on p.2 hx e;
              outside = λ px py hx out. (p.2).elsewhere px py hx (apart px py out);
            },
          )
      | inr goes ↦
          let t = turn l w h x y err r s d a (steps_left l w h x y err r s a goes) in
          let rest =
            loop_draws fuel l w h p.0 (next_x l x (u32 (2 * err))) (next_y l y (u32 (2 * err)))
              (next_err l err (u32 (2 * err))) on t.left_x t.left_y (p.2).frame t.on_display t.now
              (omega (arith, t.fewer)) in
          (
            rest.0,
            loop_goes fuel l buf p.0 x y err on p.1 goes ∙ rest.1,
            record {
              frame = (rest.2).frame;
              from = (rest.2).drawn_stays x y d.here_x (p.2).here;
              to = (rest.2).to;
              drawn_stays = λ px py hx e.
                  (rest.2).drawn_stays px py hx (paint_keeps buf p.0 x y px py on p.2 hx e);
              outside = λ px py hx out.
                  (rest.2).outside px py hx (still px py t out)
                  ∙ (p.2).elsewhere px py hx (apart px py out);
            },
          )
    ]
  where
    apart : (px py : ℕ) → Outside x l.x1 px ⊎ Outside y l.y1 py → (px ≢ x) ⊎ (py ≢ y)
    apart px py (inl o) = inl (differs x l.x1 px o)
    apart px py (inr o) = inr (differs y l.y1 py o)

    still :
        (px py : ℕ) (t : Turn l w h x y err r s)
        → Outside x l.x1 px ⊎ Outside y l.y1 py
        → Outside (next_x l x (u32 (2 * err))) l.x1 px
          ⊎ Outside (next_y l y (u32 (2 * err))) l.y1 py
    still px py t (inl o) = inl (
        further l.sx x r (next_x l x (u32 (2 * err))) t.left_x l.x1 px a.to_x (t.now).to_x t.kept_x
          o)
    still px py t (inr o) = inr (
        further l.sy y s (next_y l y (u32 (2 * err))) t.left_y l.y1 py a.to_y (t.now).to_y t.kept_y
          o)
