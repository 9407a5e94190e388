-- ===== src/Microscope/Ways.antt =====
-- The ways that the scanner may take, as lists of positions.
use pico_cpp.Common.{ℕ, zero, suc, ◌+◌, ◌-◌, ◌≡◌, ◌∙◌, inl, inr, refl, sym, ap, arith}
use pico_cpp.Common.{List, [], ◌∷◌, ◌++◌, ltb, Bool-cases}
use mathlib.Core.List.{append_assoc}

-- The `n` numbers above `v`, upwards, and those below it, downwards.
unfoldable pub count_up : ℕ → ℕ → List ℕ
count_up zero v = []
count_up (suc n) v = (v + 1) ∷ count_up n (v + 1)

unfoldable pub count_down : ℕ → ℕ → List ℕ
count_down zero v = []
count_down (suc n) v = (v - 1) ∷ count_down n (v - 1)

-- From `a`, which is left out, to `b`.
unfoldable pub between : ℕ → ℕ → List ℕ
unfolding count_up count_down
between a b = count_up (b - a) a ++ count_down (a - b) a

-- What a walk through the positions sees, with `f` what each of them shows.
unfoldable pub along : {A B : Type 0} → (A → List B) → List A → List B
along f [] = []
along f (a ∷ rest) = f a ++ along f rest

pub along_none : {A B : Type 0} (l : List A) → along {A = A} {B = B} (λ a. []) l ≡ []
unfolding along
along_none [] = refl
along_none (a ∷ l) = along_none l

pub along-append :
    {A B : Type 0} (f : A → List B) (xs ys : List A) → along f (xs ++ ys) ≡ along f xs ++ along f ys
unfolding along
along-append f [] ys = refl
along-append f (x ∷ xs) ys =
    ap (λ l. f x ++ l) (along-append f xs ys) ∙ sym (append_assoc (f x) (along f xs) (along f ys))

-- The way of `move_to`: along x at the first y, and then along y.
unfoldable pub way : (ℕ × ℕ → List (ℕ × ℕ)) → ℕ → ℕ → ℕ → ℕ → List (ℕ × ℕ)
unfolding along between
way f x y tx ty = along (λ v. f (v, y)) (between x tx) ++ along (λ v. f (tx, v)) (between y ty)

-- What is left to go down once the way up has ended.
pub down_part : (x t : ℕ) → count_down (x + (t - x) - t) (x + (t - x)) ≡ count_down (x - t) x
unfolding count_down
down_part x t = elim (Bool-cases (ltb x t)) [
  | inl below ↦
      let none_left : x + (t - x) - t ≡ 0 = ground arith in
      let no_way : x - t ≡ 0 = ground arith in
      ap (λ n. count_down n (x + (t - x))) none_left ∙ sym (ap (λ n. count_down n x) no_way)
  | inr above ↦ let stays : x + (t - x) ≡ x = ground arith in ap (λ v. count_down (v - t) v) stays
]

pub both_ways :
    (f : ℕ → List (ℕ × ℕ)) (seen : List (ℕ × ℕ)) (x t : ℕ)
    → (seen ++ along f (count_up (t - x) x)) ++ along f (count_down (x + (t - x) - t) (x + (t - x)))
      ≡ seen ++ along f (between x t)
unfolding between
both_ways f seen x t =
    append_assoc seen (along f (count_up (t - x) x)) _
    ∙ ap (λ l. seen ++ l)
        (ap (λ l. along f (count_up (t - x) x) ++ along f l) (down_part x t)
          ∙ sym (along-append f (count_up (t - x) x) (count_down (x - t) x)))
