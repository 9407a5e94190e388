-- ===== src/Microscope/Moves.antt =====
-- How the scanner moves: along x first and then along y, one step at a time.
use pico_cpp.Common.{ℕ, ◌+◌, ◌-◌, ◌<◌, ◌≡◌, ◌∙◌, refl, ap, ap₂, arith}
use pico_cpp.Common.{List, [], ◌∷◌, ◌++◌, Bool, map}
use mathlib.Core.List.{append_assoc, append-nil}
use pico_cpp.Microscope.Board.{Event, sleep_us, print_end}
use pico_cpp.Microscope.Converters.{set_on_cap}
use pico_cpp.Microscope.Scanner.{Config, Scan, emit}
use pico_cpp.Microscope.Scanner.{up_x, down_x, up_y, down_y, move_to}
use pico_cpp.Microscope.Tracking.{
  Seen, extend, restate, kept, is_output, outputs_x, outputs_y, visits, reached,
}
use pico_cpp.Microscope.Ways.{count_up, between, along, way, both_ways}
use pico_cpp.Microscope.Steps.{up_x-Seen, down_x-Seen, up_y-Seen, down_y-Seen}

module _ {pick : Event → Bool} {p : ℕ × ℕ} {c : Config × ℕ × ℕ} (delay : ℕ)
    (f : ℕ × ℕ → List (ℕ × ℕ))
    (x_shows : (v : ℕ)
      → v < 65536
      → (q : ℕ × ℕ) → visits pick (set_on_cap 1 v ++ (sleep_us delay ∷ [])) q ≡ f (v, q.1))
    (y_shows : (v : ℕ)
      → v < 65536
      → (q : ℕ × ℕ) → visits pick (set_on_cap 2 v ++ (sleep_us delay ∷ [])) q ≡ f (q.0, v)) where
  pub along_x-Seen :
      (t : ℕ) (seen : List (ℕ × ℕ)) (x y : ℕ) (s : Scan)
      → x < 65536
      → t < 65536
      → Seen pick p c seen x y s
      → Seen pick p c
          (seen ++ along (λ v. f (v, y)) (between x t))
          t
          y
          (down_x 65536 t delay (up_x 65536 t delay s))
  along_x-Seen t seen x y s small below k =
      let g : ℕ → List (ℕ × ℕ) = λ v. f (v, y) in
      let up =
        up_x-Seen delay f x_shows y_shows 65536 (t - x) t seen x y s refl (omega arith) small below
          k in
      let down =
        down_x-Seen delay f x_shows y_shows 65536 (x + (t - x) - t) t
          (seen ++ along g (count_up (t - x) x)) (x + (t - x)) y (up_x 65536 t delay s) refl
          (omega arith) (omega arith) below up in
      restate down (both_ways g seen x t) (omega arith) refl

  pub along_y-Seen :
      (t : ℕ) (seen : List (ℕ × ℕ)) (x y : ℕ) (s : Scan)
      → y < 65536
      → t < 65536
      → Seen pick p c seen x y s
      → Seen pick p c
          (seen ++ along (λ v. f (x, v)) (between y t))
          x
          t
          (down_y 65536 t delay (up_y 65536 t delay s))
  along_y-Seen t seen x y s small below k =
      let g : ℕ → List (ℕ × ℕ) = λ v. f (x, v) in
      let up =
        up_y-Seen delay f x_shows y_shows 65536 (t - y) t seen x y s refl (omega arith) small below
          k in
      let down =
        down_y-Seen delay f x_shows y_shows 65536 (y + (t - y) - t) t
          (seen ++ along g (count_up (t - y) y)) x (y + (t - y)) (up_y 65536 t delay s) refl
          (omega arith) (omega arith) below up in
      restate down (both_ways g seen y t) refl (omega arith)

  pub move_to-Seen :
      (seen : List (ℕ × ℕ)) (x y tx ty : ℕ) (s : Scan)
      → x < 65536
      → y < 65536
      → tx < 65536
      → ty < 65536
      → visits pick (print_end ∷ []) (tx, ty) ≡ []
      → Seen pick p c seen x y s
      → Seen pick p c (seen ++ way f x y tx ty) tx ty (move_to tx ty delay s)
  unfolding move_to emit way reached
  move_to-Seen seen x y tx ty s sx sy stx sty quiet k =
      let s1 = down_x 65536 tx delay (up_x 65536 tx delay s) in
      let first = along (λ v. f (v, y)) (between x tx) in
      let second = along (λ v. f (tx, v)) (between y ty) in
      let k1 = along_x-Seen tx seen x y s sx stx k in
      let k2 = along_y-Seen ty (seen ++ first) tx y s1 sy sty k1 in
      let s2 = down_y 65536 ty delay (up_y 65536 ty delay s1) in
      restate
        (extend (print_end ∷ []) [] tx ty (emit (print_end ∷ []) s2) k2 quiet refl refl k2.at_x
          k2.at_y refl)
        (append-nil ((seen ++ first) ++ second) ∙ append_assoc seen first second) refl refl

along-map : {A B : Type 0} (g : A → B) (l : List A) → along (λ a. g a ∷ []) l ≡ map g l
unfolding along
along-map g [] = refl
along-map g (a ∷ l) = ap (λ r. g a ∷ r) (along-map g l)

-- From the position that the converter holds, `move_to` sets the converter to every position on the
-- way along x and then along y to the target, one after the other and no other, and ends with the
-- converter and the scanner's position at the target.
pub move_to_lem :
    (s : Scan) (tx ty delay : ℕ)
    → s.events ≡ []
    → s.pos_x < 65536
    → s.pos_y < 65536
    → tx < 65536
    → ty < 65536
    → let t = move_to tx ty delay s in
      (visits is_output t.events (s.pos_x, s.pos_y)
        ≡ map (λ v. (v, s.pos_y)) (between s.pos_x tx) ++ map (λ v. (tx, v)) (between s.pos_y ty))
      × (reached t.events (s.pos_x, s.pos_y) ≡ (tx, ty))
      × (t.pos_x ≡ tx)
      × (t.pos_y ≡ ty)
unfolding visits reached is_output way
move_to_lem s tx ty delay none_yet sx sy stx sty =
    let start : Seen is_output (s.pos_x, s.pos_y) (kept s) [] s.pos_x s.pos_y s = record {
      visited = ap (λ es. visits is_output es (s.pos_x, s.pos_y)) none_yet;
      stands = ap (λ es. reached es (s.pos_x, s.pos_y)) none_yet;
      at_x = refl;
      at_y = refl;
      keeps = refl;
    } in
    let k =
      move_to-Seen delay (λ q. q ∷ []) (λ v small q. outputs_x v small q delay)
        (λ v small q. outputs_y v small q delay) [] s.pos_x s.pos_y tx ty s sx sy stx sty refl
        start in
    (
      k.visited
          ∙ ap₂ (λ a b. a ++ b) (along-map (λ v. (v, s.pos_y)) (between s.pos_x tx))
              (along-map (λ v. (tx, v)) (between s.pos_y ty)),
      k.stands,
      k.at_x,
      k.at_y,
    )
