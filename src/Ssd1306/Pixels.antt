-- ===== src/Ssd1306/Pixels.antt =====
-- ssd1306_i2c.c: `SetPixel` changes one pixel of the picture, and `reverse` turns a byte around.
use pico_cpp.Common.{
  ℕ, zero, suc, ◌+◌, ◌*◌, ◌/◌, ◌%◌, ◌^◌, ◌<◌, ◌≡◌, ◌≢◌, refl, ap, sym, ◌∙◌, arith,
}
use pico_cpp.Common.{
  ◌⊎◌, [], ◌∷◌, List, some, Bool, true, false, ◌&&◌, if◌then◌else◌, ltb, ◌==◌, ==_iff,
}
use pico_cpp.Common.{
  length, length-set, get_elem?, get_or, set, get_or-set_self, get_or-set_ne, Bool-cases,
}
use pico_cpp.Common.{inl, inr, all_below, all_below_at, eq_below}
use pico_cpp.Ssd1306.Commands.{ssd1306_width, ssd1306_height, ssd1306_buf_len}
use pico_cpp.Ssd1306.Draw.{set_pixel, set_bit, poke, reverse}

abbrev pub bit_at : ℕ → ℕ → ℕ
bit_at b k = b / 2 ^ k % 2

abbrev pub one_if : Bool → ℕ
one_if true = 1
one_if false = 0

bit_test : Bool → ℕ → ℕ → ℕ → Bool
unfolding set_bit
bit_test on b k j =
    (bit_at (set_bit on b k) j == (if j == k then one_if on else bit_at b j))
    && ltb (set_bit on b k) 256

bits_on : all_below 256 (λ b. all_below 8 (λ k. all_below 8 (bit_test true b k))) ≡ true
unfolding all_below bit_test
bits_on = refl

bits_off : all_below 256 (λ b. all_below 8 (λ k. all_below 8 (bit_test false b k))) ≡ true
unfolding all_below bit_test
bits_off = refl

both : (a b : Bool) → a && b ≡ true → (a ≡ true) × (b ≡ true)
both true b h = (refl, h)
both false b h = absurd (cc h)

bit_test_holds : (on : Bool) (b k j : ℕ) → b < 256 → k < 8 → j < 8 → bit_test on b k j ≡ true
bit_test_holds true b k j hb hk hj =
    all_below_at 8 (bit_test true b k)
      (all_below_at 8 (λ k. all_below 8 (bit_test true b k))
        (all_below_at 256 (λ b. all_below 8 (λ k. all_below 8 (bit_test true b k))) bits_on b hb) k
        hk)
      j hj
bit_test_holds false b k j hb hk hj =
    all_below_at 8 (bit_test false b k)
      (all_below_at 8 (λ k. all_below 8 (bit_test false b k))
        (all_below_at 256 (λ b. all_below 8 (λ k. all_below 8 (bit_test false b k))) bits_off b hb)
        k hk)
      j hj

set_bit_lem :
    (on : Bool) (b k j : ℕ)
    → b < 256
    → k < 8
    → j < 8
    → (bit_at (set_bit on b k) j ≡ (if j == k then one_if on else bit_at b j))
      × (set_bit on b k < 256)
unfolding bit_test
set_bit_lem on b k j hb hk hj =
    let t = bit_test_holds on b k j hb hk hj in
    let v = bit_at (set_bit on b k) j in
    let w = if j == k then one_if on else bit_at b j in
    let e : (v == w ≡ true) × (ltb (set_bit on b k) 256 ≡ true) = both (v == w) _ t in
    ((==_iff v w).0 e.0, ground arith)

-- The pixel that a frame buffer shows: 8 rows to a page, a byte for each column of a page.
abbrev pub pixel : List ℕ → ℕ → ℕ → ℕ
pixel buf x y = bit_at (get_or buf (y / 8 * ssd1306_width + x) 0) (y % 8)

-- A frame buffer of the display's size, of bytes.
pub record Frame (buf : List ℕ) : Type 0 where
  pub size : length buf ≡ ssd1306_buf_len
  pub bytes : (i : ℕ) → get_or buf i 0 < 256

-- What it means that one pixel has been drawn.
pub record Painted (buf : List ℕ) (x y : ℕ) (on : Bool) (buf' : List ℕ) : Type 0 where
  pub frame : Frame buf'
  pub here : pixel buf' x y ≡ one_if on
  pub elsewhere :
      (x' y' : ℕ) → x' < ssd1306_width → (x' ≢ x) ⊎ (y' ≢ y) → pixel buf' x' y' ≡ pixel buf x' y'

pub get_of_get_or :
    (buf : List ℕ) (i : ℕ) → i < length buf → get_elem? buf i ≡ some (get_or buf i 0)
get_of_get_or [] i h = absurd (omega arith)
get_of_get_or (b ∷ buf) zero h = refl
get_of_get_or (b ∷ buf) (suc i) h = get_of_get_or buf i (omega arith)

abbrev painted : List ℕ → ℕ → ℕ → Bool → List ℕ
painted buf x y on =
    let i = y / 8 * ssd1306_width + x in set buf i (set_bit on (get_or buf i 0) (y % 8))

set_pixel_runs :
    (buf : List ℕ) (x y : ℕ) (on : Bool)
    → Frame buf
    → x < ssd1306_width
    → y < ssd1306_height
    → set_pixel buf x y on ≡ some (painted buf x y on)
unfolding set_pixel poke
set_pixel_runs buf x y on f hx hy =
    let i = y / 8 * ssd1306_width + x in
    let e = get_of_get_or buf i (omega (arith, f.size)) in ground (arith, f.size)

get_or-set_below :
    (buf : List ℕ) (i v j : ℕ) → v < 256 → get_or buf j 0 < 256 → get_or (set buf i v) j 0 < 256
get_or-set_below [] i v j hv h = h
get_or-set_below (b ∷ buf) zero v zero hv h = hv
get_or-set_below (b ∷ buf) zero v (suc j) hv h = h
get_or-set_below (b ∷ buf) (suc i) v zero hv h = h
get_or-set_below (b ∷ buf) (suc i) v (suc j) hv h = get_or-set_below buf i v j hv h

Frame-set : (buf : List ℕ) (i v : ℕ) → Frame buf → v < 256 → Frame (set buf i v)
Frame-set buf i v f hv = record {
  size = length-set buf i v ∙ f.size;
  bytes = λ j. get_or-set_below buf i v j hv (f.bytes j);
}

painted-Painted :
    (buf : List ℕ) (x y : ℕ) (on : Bool)
    → Frame buf
    → x < ssd1306_width
    → y < ssd1306_height
    → Painted buf x y on (painted buf x y on)
painted-Painted buf x y on f hx hy =
    let i : ℕ = y / 8 * ssd1306_width + x in
    let b : ℕ = get_or buf i 0 in
    let v : ℕ = set_bit on b (y % 8) in
    let bit : (j : ℕ)
        → j < 8
        → (bit_at v j ≡ (if j == y % 8 then one_if on else bit_at b j)) × (v < 256) =
      λ j hj. set_bit_lem on b (y % 8) j (f.bytes i) (omega arith) hj in
    let self : (y % 8 == y % 8) ≡ true = (==_iff (y % 8) (y % 8)).1 refl in
    record {
      frame = Frame-set buf i v f (bit 0 (omega arith)).1;
      here =
          ap (λ t. bit_at t (y % 8)) (get_or-set_self buf i v 0 (omega (arith, f.size)))
          ∙ (bit (y % 8) (omega arith)).0
          ∙ ap (λ t. if t then one_if on else bit_at b (y % 8)) self;
      elsewhere = λ x' y' hx' other.
          let i' : ℕ = y' / 8 * ssd1306_width + x' in
          elim (Bool-cases (i == i')) [
            | inr ne ↦ ap (λ t. bit_at t (y' % 8)) (get_or-set_ne buf i i' v 0 (ground arith))
            | inl e ↦
                let same : i ≡ i' = (==_iff i i').0 e in
                let away : (y' % 8 == y % 8) ≡ false = ground arith in
                ap (λ t. bit_at (get_or (set buf i v) t 0) (y' % 8)) (sym same)
                ∙ ap (λ t. bit_at t (y' % 8)) (get_or-set_self buf i v 0 (omega (arith, f.size)))
                ∙ (bit (y' % 8) (omega arith)).0
                ∙ ap (λ t. if t then one_if on else bit_at b (y' % 8)) away
                ∙ ap (λ t. bit_at (get_or buf t 0) (y' % 8)) same
          ];
    }

-- Within the display `SetPixel` passes its assertion, and sets or clears the one pixel it names:
-- every other pixel of the picture stays, and the buffer, which has the size of the display and
-- holds bytes, keeps both.
pub set_pixel_lem :
    (buf : List ℕ) (x y : ℕ) (on : Bool)
    → Frame buf
    → x < ssd1306_width
    → y < ssd1306_height
    → (buf' : List ℕ) × (set_pixel buf x y on ≡ some buf') × Painted buf x y on buf'
set_pixel_lem buf x y on f hx hy =
    (painted buf x y on, set_pixel_runs buf x y on f hx hy, painted-Painted buf x y on f hx hy)

abbrev pub mirrored : ℕ → ℕ
mirrored b =
    bit_at b 0 * 128
    + bit_at b 1 * 64
    + bit_at b 2 * 32
    + bit_at b 3 * 16
    + bit_at b 4 * 8
    + bit_at b 5 * 4
    + bit_at b 6 * 2
    + bit_at b 7

-- `reverse` gives a byte with its eight bits in the opposite order.
pub reverse_lem : (b : ℕ) → b < 256 → reverse b ≡ mirrored b
unfolding all_below reverse
reverse_lem b h = eq_below 256 reverse mirrored refl b h
