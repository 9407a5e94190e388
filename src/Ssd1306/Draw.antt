-- ===== src/Ssd1306/Draw.antt =====
-- ssd1306_i2c.c: pixels and characters in the frame buffer. `none` is an assertion that fails or an
-- access outside a buffer. Coordinates are not negative.
use pico_cpp.Common.{ℕ, zero, suc, ◌+◌, ◌-◌, ◌*◌, ◌/◌, ◌%◌, List, [], ◌∷◌, Option, none, some, map}
use pico_cpp.Common.{Bool, true, false, ◌&&◌, ◌||◌, if◌then◌else◌, ltb, leb, ◌==◌, u8, ◌<<<◌, ◌>>>◌}
use pico_cpp.Common.{bit_and, bit_or, length, get_elem?, set}
use pico_cpp.Ssd1306.Commands.{ssd1306_height, ssd1306_width}

unfoldable pub poke : List ℕ → ℕ → ℕ → Option (List ℕ)
poke buf i b = if ltb i (length buf) then some (set buf i b) else none

-- One bit of a byte: `~(1 << k)` is cut to the byte that it is and-ed with.
unfoldable pub set_bit : Bool → ℕ → ℕ → ℕ
set_bit true byte k = bit_or byte (1 <<< k)
set_bit false byte k = bit_and byte (255 - (1 <<< k))

unfoldable pub set_pixel : List ℕ → ℕ → ℕ → Bool → Option (List ℕ)
unfolding poke set_bit
set_pixel buf x y on =
    if ltb x ssd1306_width && ltb y ssd1306_height
    then (let byte_idx = y / 8 * ssd1306_width + x in
        elim (get_elem? buf byte_idx) [
          | none ↦ none
          | some byte ↦ poke buf byte_idx (set_bit on byte (y % 8))
        ])
    else none

unfoldable pub get_font_index : ℕ → ℕ
get_font_index ch =
    if leb 65 ch && leb ch 90
    then ch - 65 + 1
    else (if leb 48 ch && leb ch 57 then ch - 48 + 27 else 0)

unfoldable pub reverse : ℕ → ℕ
reverse b =
    let b = u8 (bit_or (bit_and b 0xF0 >>> 4) (bit_and b 0x0F <<< 4)) in
    let b = u8 (bit_or (bit_and b 0xCC >>> 2) (bit_and b 0x33 <<< 2)) in
    u8 (bit_or (bit_and b 0xAA >>> 1) (bit_and b 0x55 <<< 1))

unfoldable pub fill_reversed_cache : List ℕ → List ℕ
unfolding reverse
fill_reversed_cache font = map reverse font

-- The loop of `WriteChar`, with `n` columns to go.
unfoldable pub copy_columns : ℕ → List ℕ → List ℕ → ℕ → ℕ → Option (List ℕ)
unfolding poke
copy_columns zero reversed buf fb_idx i = some buf
copy_columns (suc n) reversed buf fb_idx i = elim (get_elem? reversed i) [
  | none ↦ none
  | some b ↦ elim (poke buf fb_idx b) [
    | none ↦ none
    | some buf' ↦ copy_columns n reversed buf' (fb_idx + 1) (i + 1)
  ]
]

-- The frame buffer and the cache of the font.
pub record Screen : Type 0 where
  pub buf : List ℕ
  pub reversed : List ℕ

module _ (font : List ℕ) (toupper : ℕ → ℕ) where
  unfoldable pub filled_cache : List ℕ → Option (List ℕ)
  unfolding fill_reversed_cache
  filled_cache reversed = elim (get_elem? reversed 0) [
    | none ↦ none
    | some b ↦ some (if b == 0 then fill_reversed_cache font else reversed)
  ]

  unfoldable pub write_char : Screen → ℕ → ℕ → ℕ → Option Screen
  unfolding filled_cache copy_columns get_font_index
  write_char s x y ch = elim (filled_cache s.reversed) [
    | none ↦ none
    | some reversed ↦
        if ltb (ssd1306_width - 8) x || ltb (ssd1306_height - 8) y
        then some (record s { reversed = reversed })
        else elim (copy_columns 8 reversed s.buf (y / 8 * 128 + x)
            (get_font_index (toupper ch) * 8)) [
              | none ↦ none
              | some buf ↦ some (record { buf = buf; reversed = reversed })
            ]
  ]

  unfoldable pub write_chars : Screen → ℕ → ℕ → List ℕ → Option Screen
  unfolding write_char
  write_chars s x y [] = some s
  write_chars s x y (ch ∷ str) = elim (write_char s x y ch) [
    | none ↦ none
    | some s' ↦ write_chars s' (x + 8) y str
  ]

  unfoldable pub write_string : Screen → ℕ → ℕ → List ℕ → Option Screen
  unfolding write_chars
  write_string s x y str =
      if ltb (ssd1306_width - 8) x || ltb (ssd1306_height - 8) y
      then some s
      else write_chars s x y str
