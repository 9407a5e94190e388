-- ===== src/Ssd1306/Glyphs.antt =====
-- ssd1306_i2c.c: characters and strings stay in the frame buffer and the font.
use pico_cpp.Common.{
  ℕ, zero, suc, ◌+◌, ◌-◌, ◌*◌, ◌/◌, ◌<◌, ◌≤◌, ◌≡◌, ◌⊎◌, inl, inr, refl, ◌∙◌, arith,
}
use pico_cpp.Common.{List, some, true, false, ◌||◌, ltb}
use pico_cpp.Common.{◌==◌, length, length-set, length-map, get_or, set, get_or-set_self}
use pico_cpp.Common.{get_or-set_ne, Bool-cases}
use pico_cpp.Ssd1306.Commands.{ssd1306_width, ssd1306_height, ssd1306_buf_len}
use pico_cpp.Ssd1306.Draw.{
  poke, copy_columns, get_font_index, Screen, filled_cache, fill_reversed_cache, reverse,
}
use pico_cpp.Ssd1306.Draw.{write_char}
use pico_cpp.Ssd1306.Pixels.{get_of_get_or}

-- 26 letters, 10 digits and the blank, of 8 columns each.
abbrev pub font_size : ℕ
font_size = 37 * 8

-- `n` columns of the font, from `i` on, stand in the buffer from `fb` on.
pub record Copied (n : ℕ) (reversed buf : List ℕ) (fb i : ℕ) (buf' : List ℕ) : Type 0 where
  pub size : length buf' ≡ length buf
  pub inside : (k : ℕ) → k < n → get_or buf' (fb + k) 0 ≡ get_or reversed (i + k) 0
  pub outside : (j : ℕ) → (j < fb) ⊎ (fb + n ≤ j) → get_or buf' j 0 ≡ get_or buf j 0

copy_step :
    (n : ℕ) (reversed buf : List ℕ) (fb i : ℕ)
    → fb < length buf
    → i < length reversed
    → copy_columns (suc n) reversed buf fb i
      ≡ copy_columns n reversed (set buf fb (get_or reversed i 0)) (fb + 1) (i + 1)
unfolding copy_columns poke
copy_step n reversed buf fb i hb hi =
    let e = get_of_get_or reversed i hi in
    let t : ltb fb (length buf) ≡ true = ground arith in rw (e, t, copy_columns, poke) refl

Copied-cons :
    (n : ℕ) (reversed buf : List ℕ) (fb i : ℕ) (buf' : List ℕ)
    → fb < length buf
    → Copied n reversed (set buf fb (get_or reversed i 0)) (fb + 1) (i + 1) buf'
    → Copied (suc n) reversed buf fb i buf'
Copied-cons n reversed buf fb i buf' h c =
    let v : ℕ = get_or reversed i 0 in
    record {
      size = c.size ∙ length-set buf fb v;
      inside = λ k lt. elim (Bool-cases (k == 0)) [
        | inl e ↦
            let at : fb + k ≡ fb = ground arith in
            let src : i + k ≡ i = ground arith in
            rw (at, src) (c.outside fb (inl (omega arith)) ∙ get_or-set_self buf fb v 0 h)
        | inr ne ↦
            let at : fb + k ≡ fb + 1 + (k - 1) = ground arith in
            let src : i + k ≡ i + 1 + (k - 1) = ground arith in
            rw (at, src) (c.inside (k - 1) (ground arith))
      ];
      outside = λ j away. c.outside j (ground arith) ∙ get_or-set_ne buf fb j v 0 (ground arith);
    }

copy_columns_lem :
    (n : ℕ) (reversed buf : List ℕ) (fb i : ℕ)
    → fb + n ≤ length buf
    → i + n ≤ length reversed
    → (buf' : List ℕ) × (copy_columns n reversed buf fb i ≡ some buf')
      × Copied n reversed buf fb i buf'
unfolding copy_columns
copy_columns_lem zero reversed buf fb i hb hi =
    (buf, refl, record { size = refl; inside = λ k h. absurd (omega arith); outside = λ j h. refl })
copy_columns_lem (suc n) reversed buf fb i hb hi =
    let v : ℕ = get_or reversed i 0 in
    let (buf', e, c) =
      copy_columns_lem n reversed (set buf fb v) (fb + 1) (i + 1)
        (rw (length-set buf fb v) (omega arith)) (omega arith) in
    (
      buf',
      copy_step n reversed buf fb i (omega arith) (omega arith) ∙ e,
      Copied-cons n reversed buf fb i buf' (omega arith) c,
    )

get_font_index_below : (ch : ℕ) → get_font_index ch < 37
unfolding get_font_index
get_font_index_below ch = ground arith

module _ (font : List ℕ) (toupper : ℕ → ℕ) where
  filled_cache_lem :
      (reversed : List ℕ)
      → length font ≡ font_size
      → length reversed ≡ font_size
      → (r : List ℕ) × (filled_cache font toupper reversed ≡ some r) × (length r ≡ font_size)
  unfolding filled_cache fill_reversed_cache
  filled_cache_lem reversed hf hr =
      let e = get_of_get_or reversed 0 (omega (arith, hr)) in
      elim (Bool-cases (get_or reversed 0 0 == 0)) [
        | inl z ↦
            (fill_reversed_cache font, rw (e, z, filled_cache) refl, length-map font reverse ∙ hf)
        | inr z ↦ (reversed, rw (e, z, filled_cache) refl, hr)
      ]

  -- What it means that a character has been drawn at column `x` of the page of row `y`.
  pub record Shown (s : Screen) (x y ch : ℕ) (s' : Screen) : Type 0 where
    pub cache : length s'.reversed ≡ font_size
    pub glyph :
        Copied 8 s'.reversed s.buf (y / 8 * 128 + x) (get_font_index (toupper ch) * 8) s'.buf

  -- A character whose eight columns are on the display is drawn there: the columns of its glyph,
  -- as the cache of the reversed font has them, and no other byte of the buffer changes. The font,
  -- its cache and the buffer have their sizes.
  pub write_char_lem :
      (s : Screen) (x y ch : ℕ)
      → length font ≡ font_size
      → length s.reversed ≡ font_size
      → length s.buf ≡ ssd1306_buf_len
      → x + 8 ≤ ssd1306_width
      → y + 8 ≤ ssd1306_height
      → (s' : Screen) × (write_char font toupper s x y ch ≡ some s') × Shown s x y ch s'
  unfolding write_char
  write_char_lem s x y ch hf hr hb hx hy =
      let (r, e, size) = filled_cache_lem s.reversed hf hr in
      let idx = get_font_index (toupper ch) in
      let small = get_font_index_below (toupper ch) in
      let (b, e2, c) =
        copy_columns_lem 8 r s.buf (y / 8 * 128 + x) (idx * 8) (omega (arith, hb))
          (omega (arith, size, small)) in
      let near : (ltb (ssd1306_width - 8) x || ltb (ssd1306_height - 8) y) ≡ false = ground arith in
      (
        record { buf = b; reversed = r },
        rw (e, near, e2, write_char) refl,
        record { cache = size; glyph = c },
      )

  -- The sizes that the buffers keep.
  pub record Sized (s : Screen) : Type 0 where
    pub buf : length s.buf ≡ ssd1306_buf_len
    pub cache : length s.reversed ≡ font_size
