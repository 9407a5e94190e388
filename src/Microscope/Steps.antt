-- ===== src/Microscope/Steps.antt =====
-- One step of the scanner, and each of the four loops of `move_to`.
use pico_cpp.Common.{ℕ, zero, suc, ◌+◌, ◌-◌, ◌<◌, ◌≤◌, ◌≡◌, ◌∙◌, refl, sym, ap, arith}
use pico_cpp.Common.{List, [], ◌∷◌, ◌++◌, Bool, true, false, ltb, u16}
use mathlib.Core.Path.{subst}
use mathlib.Core.List.{append_assoc, append-nil}
use pico_cpp.Microscope.Board.{Event, sleep_us}
use pico_cpp.Microscope.Converters.{set_on_cap}
use pico_cpp.Microscope.Scanner.{Config, Scan, set_x, set_y, increase_x, decrease_x, increase_y}
use pico_cpp.Microscope.Scanner.{decrease_y, up_x, down_x, up_y, down_y}
use pico_cpp.Microscope.Tracking.{Seen, restate, visits, set_x-Seen, set_y-Seen}
use pico_cpp.Microscope.Ways.{count_up, count_down, along}

module _ {pick : Event → Bool} {p : ℕ × ℕ} {c : Config × ℕ × ℕ} (delay : ℕ)
    (f : ℕ × ℕ → List (ℕ × ℕ))
    (x_shows : (v : ℕ)
      → v < 65536
      → (q : ℕ × ℕ) → visits pick (set_on_cap 1 v ++ (sleep_us delay ∷ [])) q ≡ f (v, q.1))
    (y_shows : (v : ℕ)
      → v < 65536
      → (q : ℕ × ℕ) → visits pick (set_on_cap 2 v ++ (sleep_us delay ∷ [])) q ≡ f (q.0, v)) where
  pub increase_x-Seen :
      (seen : List (ℕ × ℕ)) (x y : ℕ) (s : Scan)
      → Seen pick p c seen x y s
      → Seen pick p c (seen ++ f (u16 (x + 1), y)) (u16 (x + 1)) y (increase_x delay s)
  unfolding increase_x
  increase_x-Seen seen x y s k =
      let v = u16 (x + 1) in
      subst (λ u. Seen pick p c (seen ++ f (v, y)) (v) y (set_x delay (u16 (u + 1)) s)) (sym k.at_x)
        (set_x-Seen delay v (omega arith) _ (x_shows v (omega arith) (x, y)) k)

  pub decrease_x-Seen :
      (seen : List (ℕ × ℕ)) (x y : ℕ) (s : Scan)
      → Seen pick p c seen x y s
      → Seen pick p c (seen ++ f (u16 (x + 65535), y)) (u16 (x + 65535)) y (decrease_x delay s)
  unfolding decrease_x
  decrease_x-Seen seen x y s k =
      let v = u16 (x + 65535) in
      subst (λ u. Seen pick p c (seen ++ f (v, y)) (v) y (set_x delay (u16 (u + 65535)) s))
        (sym k.at_x) (set_x-Seen delay v (omega arith) _ (x_shows v (omega arith) (x, y)) k)

  pub increase_y-Seen :
      (seen : List (ℕ × ℕ)) (x y : ℕ) (s : Scan)
      → Seen pick p c seen x y s
      → Seen pick p c (seen ++ f (x, u16 (y + 1))) x (u16 (y + 1)) (increase_y delay s)
  unfolding increase_y
  increase_y-Seen seen x y s k =
      let v = u16 (y + 1) in
      subst (λ u. Seen pick p c (seen ++ f (x, v)) x (v) (set_y delay (u16 (u + 1)) s)) (sym k.at_y)
        (set_y-Seen delay v (omega arith) _ (y_shows v (omega arith) (x, y)) k)

  pub decrease_y-Seen :
      (seen : List (ℕ × ℕ)) (x y : ℕ) (s : Scan)
      → Seen pick p c seen x y s
      → Seen pick p c (seen ++ f (x, u16 (y + 65535))) x (u16 (y + 65535)) (decrease_y delay s)
  unfolding decrease_y
  decrease_y-Seen seen x y s k =
      let v = u16 (y + 65535) in
      subst (λ u. Seen pick p c (seen ++ f (x, v)) x (v) (set_y delay (u16 (u + 65535)) s))
        (sym k.at_y) (set_y-Seen delay v (omega arith) _ (y_shows v (omega arith) (x, y)) k)

  pub up_x-Seen :
      (fuel n t : ℕ) (seen : List (ℕ × ℕ)) (x y : ℕ) (s : Scan)
      → t - x ≡ n
      → n ≤ fuel
      → x < 65536
      → t < 65536
      → Seen pick p c seen x y s
      → Seen pick p c (seen ++ along (λ v. f (v, y)) (count_up n x)) (x + n) y (up_x fuel t delay s)
  unfolding up_x along count_up
  up_x-Seen zero zero t seen x y s e enough small below k =
      restate k (sym (append-nil seen)) (omega arith) refl
  up_x-Seen zero (suc n) t seen x y s e enough small below k = absurd (omega arith)
  up_x-Seen (suc fuel) zero t seen x y s e enough small below k =
      let stop : ltb s.pos_x t ≡ false = ap (λ u. ltb u t) k.at_x ∙ ground arith in
      rw (stop, up_x) (restate k (sym (append-nil seen)) (omega arith) refl)
  up_x-Seen (suc fuel) (suc n) t seen x y s e enough small below k =
      let goes : ltb s.pos_x t ≡ true = ap (λ u. ltb u t) k.at_x ∙ ground arith in
      let next : u16 (x + 1) ≡ x + 1 = omega arith in
      let at_next =
        subst (λ v. Seen pick p c (seen ++ f (v, y)) (v) y (increase_x delay s)) next
          (increase_x-Seen seen x y s k) in
      rw (goes, up_x)
        (restate
          (up_x-Seen fuel n t (seen ++ f (x + 1, y)) (x + 1) y (increase_x delay s) (omega arith)
            (omega arith) (omega arith) below at_next)
          (append_assoc seen (f (x + 1, y)) (along (λ v. f (v, y)) (count_up n (x + 1))))
          (omega arith) refl)

  pub down_x-Seen :
      (fuel n t : ℕ) (seen : List (ℕ × ℕ)) (x y : ℕ) (s : Scan)
      → x - t ≡ n
      → n ≤ fuel
      → x < 65536
      → t < 65536
      → Seen pick p c seen x y s
      → Seen pick p c
          (seen ++ along (λ v. f (v, y)) (count_down n x))
          (x - n)
          y
          (down_x fuel t delay s)
  unfolding down_x along count_down
  down_x-Seen zero zero t seen x y s e enough small below k =
      restate k (sym (append-nil seen)) (omega arith) refl
  down_x-Seen zero (suc n) t seen x y s e enough small below k = absurd (omega arith)
  down_x-Seen (suc fuel) zero t seen x y s e enough small below k =
      let stop : ltb t s.pos_x ≡ false = ap (λ u. ltb t u) k.at_x ∙ ground arith in
      rw (stop, down_x) (restate k (sym (append-nil seen)) (omega arith) refl)
  down_x-Seen (suc fuel) (suc n) t seen x y s e enough small below k =
      let goes : ltb t s.pos_x ≡ true = ap (λ u. ltb t u) k.at_x ∙ ground arith in
      let next : u16 (x + 65535) ≡ x - 1 = omega arith in
      let at_next =
        subst (λ v. Seen pick p c (seen ++ f (v, y)) (v) y (decrease_x delay s)) next
          (decrease_x-Seen seen x y s k) in
      rw (goes, down_x)
        (restate
          (down_x-Seen fuel n t (seen ++ f (x - 1, y)) (x - 1) y (decrease_x delay s) (omega arith)
            (omega arith) (omega arith) below at_next)
          (append_assoc seen (f (x - 1, y)) (along (λ v. f (v, y)) (count_down n (x - 1))))
          (omega arith) refl)

  pub up_y-Seen :
      (fuel n t : ℕ) (seen : List (ℕ × ℕ)) (x y : ℕ) (s : Scan)
      → t - y ≡ n
      → n ≤ fuel
      → y < 65536
      → t < 65536
      → Seen pick p c seen x y s
      → Seen pick p c (seen ++ along (λ v. f (x, v)) (count_up n y)) x (y + n) (up_y fuel t delay s)
  unfolding up_y along count_up
  up_y-Seen zero zero t seen x y s e enough small below k =
      restate k (sym (append-nil seen)) refl (omega arith)
  up_y-Seen zero (suc n) t seen x y s e enough small below k = absurd (omega arith)
  up_y-Seen (suc fuel) zero t seen x y s e enough small below k =
      let stop : ltb s.pos_y t ≡ false = ap (λ u. ltb u t) k.at_y ∙ ground arith in
      rw (stop, up_y) (restate k (sym (append-nil seen)) refl (omega arith))
  up_y-Seen (suc fuel) (suc n) t seen x y s e enough small below k =
      let goes : ltb s.pos_y t ≡ true = ap (λ u. ltb u t) k.at_y ∙ ground arith in
      let next : u16 (y + 1) ≡ y + 1 = omega arith in
      let at_next =
        subst (λ v. Seen pick p c (seen ++ f (x, v)) x (v) (increase_y delay s)) next
          (increase_y-Seen seen x y s k) in
      rw (goes, up_y)
        (restate
          (up_y-Seen fuel n t (seen ++ f (x, y + 1)) x (y + 1) (increase_y delay s) (omega arith)
            (omega arith) (omega arith) below at_next)
          (append_assoc seen (f (x, y + 1)) (along (λ v. f (x, v)) (count_up n (y + 1)))) refl
          (omega arith))

  pub down_y-Seen :
      (fuel n t : ℕ) (seen : List (ℕ × ℕ)) (x y : ℕ) (s : Scan)
      → y - t ≡ n
      → n ≤ fuel
      → y < 65536
      → t < 65536
      → Seen pick p c seen x y s
      → Seen pick p c
          (seen ++ along (λ v. f (x, v)) (count_down n y))
          x
          (y - n)
          (down_y fuel t delay s)
  unfolding down_y along count_down
  down_y-Seen zero zero t seen x y s e enough small below k =
      restate k (sym (append-nil seen)) refl (omega arith)
  down_y-Seen zero (suc n) t seen x y s e enough small below k = absurd (omega arith)
  down_y-Seen (suc fuel) zero t seen x y s e enough small below k =
      let stop : ltb t s.pos_y ≡ false = ap (λ u. ltb t u) k.at_y ∙ ground arith in
      rw (stop, down_y) (restate k (sym (append-nil seen)) refl (omega arith))
  down_y-Seen (suc fuel) (suc n) t seen x y s e enough small below k =
      let goes : ltb t s.pos_y ≡ true = ap (λ u. ltb t u) k.at_y ∙ ground arith in
      let next : u16 (y + 65535) ≡ y - 1 = omega arith in
      let at_next =
        subst (λ v. Seen pick p c (seen ++ f (x, v)) x (v) (decrease_y delay s)) next
          (decrease_y-Seen seen x y s k) in
      rw (goes, down_y)
        (restate
          (down_y-Seen fuel n t (seen ++ f (x, y - 1)) x (y - 1) (decrease_y delay s) (omega arith)
            (omega arith) (omega arith) below at_next)
          (append_assoc seen (f (x, y - 1)) (along (λ v. f (x, v)) (count_down n (y - 1)))) refl
          (omega arith))
