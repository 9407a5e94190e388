-- ===== src/Microscope/Tracking.antt =====
-- The scanner seen from outside: the positions that its converter is set to, by the writes to it, and
-- how each step of the scanner changes them.
use pico_cpp.Common.{ℕ, ◌+◌, ◌*◌, ◌<◌, ◌≡◌, ◌∙◌, refl, ap, ap₂, arith, List, [], ◌∷◌, ◌++◌}
use pico_cpp.Common.{Bool, true, false, ◌==◌, ◌||◌, if◌then◌else◌}
use pico_cpp.Microscope.Board.{Event, spi_write, spi_read, sleep_us}
use pico_cpp.Microscope.Board.{active_port}
use pico_cpp.Microscope.Converters.{set_on_cap}
use pico_cpp.Microscope.Scanner.{Config, Scan, set_x, set_y}

-- The two outputs of the converter, after a call: the commands 0x18 and 0x19 set them.
unfoldable pub outputs : Event → ℕ × ℕ → ℕ × ℕ
outputs (spi_write (cmd ∷ hi ∷ lo ∷ [])) p =
    if cmd == 0x18 then (hi * 256 + lo, p.1) else if cmd == 0x19 then (p.0, hi * 256 + lo) else p
outputs _ p = p

unfoldable pub reached : List Event → ℕ × ℕ → ℕ × ℕ
unfolding outputs
reached [] p = p
reached (e ∷ es) p = reached es (outputs e p)

-- The outputs after each call of a kind.
unfoldable pub visits : (Event → Bool) → List Event → ℕ × ℕ → List (ℕ × ℕ)
unfolding outputs
visits pick [] p = []
visits pick (e ∷ es) p =
    let q = outputs e p in let rest = visits pick es q in if pick e then q ∷ rest else rest

unfoldable pub is_output : Event → Bool
is_output (spi_write (cmd ∷ hi ∷ lo ∷ [])) = cmd == 0x18 || cmd == 0x19
is_output _ = false

unfoldable pub is_reading : Event → Bool
is_reading (spi_read n) = true
is_reading _ = false

pub reached-append :
    (es fs : List Event) (p : ℕ × ℕ) → reached (es ++ fs) p ≡ reached fs (reached es p)
unfolding reached
reached-append [] fs p = refl
reached-append (e ∷ es) fs p = reached-append es fs (outputs e p)

pub visits-append :
    (pick : Event → Bool) (es fs : List Event) (p : ℕ × ℕ)
    → visits pick (es ++ fs) p ≡ visits pick es p ++ visits pick fs (reached es p)
unfolding visits reached
visits-append pick [] fs p = refl
visits-append pick (e ∷ es) fs p =
    join (pick e) (outputs e p) _ _ _ (visits-append pick es fs (outputs e p))
  where
    join :
        (b : Bool) (q : ℕ × ℕ) (us bs cs : List (ℕ × ℕ))
        → us ≡ bs ++ cs
        → (if b then q ∷ us else us) ≡ (if b then q ∷ bs else bs) ++ cs
    join true q us bs cs e = ap (λ l. q ∷ l) e
    join false q us bs cs e = e

-- What a scan leaves as it is.
abbrev pub kept : Scan → Config × ℕ × ℕ
kept s = (s.conf, s.prev_x, s.prev_y)

-- From the outputs `p` the scanner has come to `x` and `y`, and has visited `seen`.
pub record Seen (pick : Event → Bool) (p : ℕ × ℕ) (c : Config × ℕ × ℕ) (seen : List (ℕ × ℕ))
    (x y : ℕ) (s : Scan) : Type 0 where
  pub visited : visits pick s.events p ≡ seen
  pub stands : reached s.events p ≡ (x, y)
  pub at_x : s.pos_x ≡ x
  pub at_y : s.pos_y ≡ y
  pub keeps : kept s ≡ c

module _ {pick : Event → Bool} {p : ℕ × ℕ} {c : Config × ℕ × ℕ} {seen : List (ℕ × ℕ)} {x y : ℕ}
    {s : Scan} where
  pub extend :
      (es : List Event) (new : List (ℕ × ℕ)) (x' y' : ℕ) (t : Scan)
      → Seen pick p c seen x y s
      → visits pick es (x, y) ≡ new
      → reached es (x, y) ≡ (x', y')
      → t.events ≡ s.events ++ es
      → t.pos_x ≡ x'
      → t.pos_y ≡ y'
      → kept t ≡ kept s
      → Seen pick p c (seen ++ new) x' y' t
  extend es new x' y' t k v r e ex ey ec = record {
    visited =
        ap (λ l. visits pick l p) e
        ∙ visits-append pick s.events es p
        ∙ ap (λ q. visits pick s.events p ++ visits pick es q) k.stands
        ∙ ap (λ l. l ++ visits pick es (x, y)) k.visited
        ∙ ap (λ l. seen ++ l) v;
    stands = ap (λ l. reached l p) e ∙ reached-append s.events es p ∙ ap (reached es) k.stands ∙ r;
    at_x = ex;
    at_y = ey;
    keeps = ec ∙ k.keeps;
  }

pub restate :
    {pick : Event → Bool} {p : ℕ × ℕ} {c : Config × ℕ × ℕ} {seen seen' : List (ℕ × ℕ)}
    {x x' y y' : ℕ} {s : Scan}
    → Seen pick p c seen x y s
    → seen ≡ seen'
    → x ≡ x'
    → y ≡ y'
    → Seen pick p c seen' x' y' s
restate k e ex ey = record {
  visited = k.visited ∙ e;
  stands = k.stands ∙ ap₂ (λ (a b : ℕ). (a, b)) ex ey;
  at_x = k.at_x ∙ ex;
  at_y = k.at_y ∙ ey;
  keeps = k.keeps;
}

module _ (v : ℕ) (small : v < 65536) (p : ℕ × ℕ) (delay : ℕ) where
  pub reached_x : reached (set_on_cap 1 v ++ (sleep_us delay ∷ [])) p ≡ (v, p.1)
  unfolding reached set_on_cap active_port
  reached_x = ap (λ w. (w, p.1)) (omega arith)

  pub reached_y : reached (set_on_cap 2 v ++ (sleep_us delay ∷ [])) p ≡ (p.0, v)
  unfolding reached set_on_cap active_port
  reached_y = ap (λ w. (p.0, w)) (omega arith)

  pub outputs_x : visits is_output (set_on_cap 1 v ++ (sleep_us delay ∷ [])) p ≡ (v, p.1) ∷ []
  unfolding visits is_output set_on_cap active_port
  outputs_x = ap (λ w. (w, p.1) ∷ []) (omega arith)

  pub outputs_y : visits is_output (set_on_cap 2 v ++ (sleep_us delay ∷ [])) p ≡ (p.0, v) ∷ []
  unfolding visits is_output set_on_cap active_port
  outputs_y = ap (λ w. (p.0, w) ∷ []) (omega arith)

  pub reads_x : visits is_reading (set_on_cap 1 v ++ (sleep_us delay ∷ [])) p ≡ []
  unfolding visits is_reading set_on_cap active_port
  reads_x = refl

  pub reads_y : visits is_reading (set_on_cap 2 v ++ (sleep_us delay ∷ [])) p ≡ []
  unfolding visits is_reading set_on_cap active_port
  reads_y = refl

module _ {pick : Event → Bool} {p : ℕ × ℕ} {c : Config × ℕ × ℕ} {seen : List (ℕ × ℕ)} {x y : ℕ}
    {s : Scan} (delay v : ℕ) (small : v < 65536) where
  pub set_x-Seen :
      (new : List (ℕ × ℕ))
      → visits pick (set_on_cap 1 v ++ (sleep_us delay ∷ [])) (x, y) ≡ new
      → Seen pick p c seen x y s
      → Seen pick p c (seen ++ new) v y (set_x delay v s)
  unfolding set_x
  set_x-Seen new h k =
      extend (set_on_cap 1 v ++ (sleep_us delay ∷ [])) new v y (set_x delay v s) k h
        (reached_x v small (x, y) delay) refl refl k.at_y refl

  pub set_y-Seen :
      (new : List (ℕ × ℕ))
      → visits pick (set_on_cap 2 v ++ (sleep_us delay ∷ [])) (x, y) ≡ new
      → Seen pick p c seen x y s
      → Seen pick p c (seen ++ new) x v (set_y delay v s)
  unfolding set_y
  set_y-Seen new h k =
      extend (set_on_cap 2 v ++ (sleep_us delay ∷ [])) new x v (set_y delay v s) k h
        (reached_y v small (x, y) delay) refl k.at_x refl refl
