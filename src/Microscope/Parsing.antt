-- ===== src/Microscope/Parsing.antt =====
-- Lines of numbers: they are read back, up to the size of the array.
use pico_cpp.Common.{ℕ, zero, suc, ◌-◌, ◌^◌, ◌≡◌, ◌≢◌, ◌∙◌, refl, ap, arith, List, [], ◌∷◌, ◌++◌}
use pico_cpp.Common.{none, some, Bool, true, false, ltb, if◌then◌else◌, length, drop}
use pico_cpp.Common.{replicate, All, Bool-cases, inl, inr}
use pico_cpp.Http.Server.{until, behind}
use pico_cpp.Microscope.Commands.{comma, parse_ints, parse, loaded}

abbrev pub Free : ℕ → List ℕ → Type 0
Free c = All (λ d. d ≢ c)

behind_none : (c : ℕ) (s : List ℕ) → Free c s → behind c s ≡ none
unfolding behind
behind_none c [] w = refl
behind_none c (d ∷ s) w = ground (arith, behind_none c s w.1)

behind_first : (c : ℕ) (s rest : List ℕ) → Free c s → behind c (s ++ c ∷ rest) ≡ some rest
unfolding behind
behind_first c [] rest w = ground arith
behind_first c (d ∷ s) rest w = ground (arith, behind_first c s rest w.1)

until_end : (c : ℕ) (s : List ℕ) → Free c s → until c s ≡ s
unfolding until
until_end c [] w = refl
until_end c (d ∷ s) w = ground (arith, until_end c s w.1)

append-Free : (c : ℕ) (s t : List ℕ) → Free c s → Free c t → Free c (s ++ t)
append-Free c [] t v w = w
append-Free c (d ∷ s) t v w = (v.0, append-Free c s t v.1 w)

-- A line of numbers with commas between them; `text` is how one is written.
unfoldable pub joined : (ℕ → List ℕ) → ℕ → List ℕ → List ℕ
joined text v [] = text v
joined text v (w ∷ ws) = text v ++ comma ∷ joined text w ws

module _ (atoi : List ℕ → ℕ) (text : ℕ → List ℕ) (plain : (n : ℕ) → Free comma (text n))
    (whole : (n : ℕ) → Free 0 (text n)) (reads : (n : ℕ) → atoi (text n) ≡ n)
    (reads_first : (n : ℕ) (rest : List ℕ) → atoi (text n ++ comma ∷ rest) ≡ n) where
  joined-Free : (v : ℕ) (vs : List ℕ) → Free 0 (joined text v vs)
  unfolding joined
  joined-Free v [] = whole v
  joined-Free v (w ∷ ws) = append-Free 0 (text v) _ (whole v) (omega arith, joined-Free w ws)

  parse_ints_lem :
      (room v : ℕ) (vs : List ℕ)
      → parse_ints atoi room (joined text v vs)
        ≡ (if ltb (length vs) room then some (v ∷ vs) else none)
  unfolding parse_ints joined
  parse_ints_lem zero v vs = ground arith
  parse_ints_lem (suc room) v [] =
      rw (parse_ints, behind_none comma (text v) (plain v), reads v) (ground arith)
  parse_ints_lem (suc room) v (w ∷ ws) = elim (Bool-cases (ltb (length ws) room)) [
    | inl fits ↦
        let ih : parse_ints atoi room (joined text w ws) ≡ some (w ∷ ws) =
          parse_ints_lem room w ws ∙ ap (λ b. if b then some (w ∷ ws) else none) fits in
        let more : ltb (suc (length ws)) (suc room) ≡ true = ground arith in
        rw (parse_ints, behind_first comma (text v) (joined text w ws) (plain v), ih, more)
          (ap (λ n. some (n ∷ w ∷ ws)) (reads_first v (joined text w ws)))
    | inr full ↦
        let ih : parse_ints atoi room (joined text w ws) ≡ none =
          parse_ints_lem room w ws ∙ ap (λ b. if b then some (w ∷ ws) else none) full in
        let no_more : ltb (suc (length ws)) (suc room) ≡ false = ground arith in
        rw (parse_ints, behind_first comma (text v) (joined text w ws) (plain v), ih, no_more) refl
  ]

  -- A line of at most 15 numbers, with commas between them, is read as these numbers: they stand at
  -- the front of the array, behind them are -1 up to the tenth place and the old contents from there,
  -- and their number is the size. With more numbers the array is written behind its end. `atoi`
  -- reads a number's text that ends with the line or at a comma.
  pub parse_lem :
      (v : ℕ) (vs vector : List ℕ)
      → parse atoi (joined text v vs) vector ≡ (
          if ltb (length vs) 15
          then some (
            v ∷ vs ++ drop (suc (length vs)) (replicate 10 (2 ^ 32 - 1) ++ drop 10 vector),
            suc (length vs),
          )
          else none)
  unfolding parse loaded
  parse_lem v vs vector =
      let cleared = replicate 10 (2 ^ 32 - 1) ++ drop 10 vector in
      ap (λ s. loaded cleared (parse_ints atoi 15 s))
        (until_end 0 (joined text v vs) (joined-Free v vs))
      ∙ ap (loaded cleared) (parse_ints_lem 15 v vs)
      ∙ pick (ltb (length vs) 15)
    where
      pick :
          (b : Bool)
          → loaded (replicate 10 (2 ^ 32 - 1) ++ drop 10 vector) (if b then some (v ∷ vs) else none)
            ≡ (if b
                then some (
                  v ∷ vs ++ drop (suc (length vs)) (replicate 10 (2 ^ 32 - 1) ++ drop 10 vector),
                  suc (length vs),
                )
                else none)
      pick true = refl
      pick false = refl
