-- ===== src/Ws2812/Patterns.antt =====
-- ws2812_parallel.c: the patterns that fill a strip. What `rand` returns at its i-th call in a
-- pattern is an argument.
use pico_cpp.Common.{ℕ, zero, suc, ◌+◌, ◌*◌, ◌%◌, ◌-◌, ◌≡◌, inl, inr, refl, arith}
use pico_cpp.Common.{List, [], ◌∷◌, ◌++◌, length, length-append, Bool, ◌&&◌, if◌then◌else◌}
use pico_cpp.Common.{ltb, leb, ◌==◌, not, u32, ◌<<<◌, ◌>>>◌, bit_and, bit_or, Bool-cases}

-- What has been written through `current_strip_out`, and `current_strip_4color`.
pub record Strip : Type 0 where
  pub out : List ℕ
  pub four_color : Bool

abbrev pub put_pixel : Strip → ℕ → Strip
put_pixel s pixel_grb = record s {
  out =
      s.out
      ++ (bit_and pixel_grb 0xff
          ∷ bit_and (pixel_grb >>> 8) 0xff
          ∷ bit_and (pixel_grb >>> 16) 0xff
          ∷ (if s.four_color then 0 ∷ [] else []));
}

abbrev pub urgb_u32 : ℕ → ℕ → ℕ → ℕ
urgb_u32 r g b = bit_or (bit_or (r <<< 8) (g <<< 16)) b

-- `for (i = ...; n times; ++i) put_pixel(color(i))`.
abbrev pub for_pixels : ℕ → ℕ → (ℕ → ℕ) → Strip → Strip
for_pixels zero i color s = s
for_pixels (suc n) i color s = for_pixels n (i + 1) color (put_pixel s (color i))

abbrev snake_color : ℕ → ℕ
snake_color x =
    if ltb x 10
    then urgb_u32 0xff 0 0
    else (if leb 15 x && ltb x 25
        then urgb_u32 0 0xff 0
        else (if leb 30 x && ltb x 40 then urgb_u32 0 0 0xff else 0))

abbrev pub pattern_snakes : ℕ → ℕ → Strip → Strip
pattern_snakes len t s = for_pixels len 0 (λ i. snake_color (u32 (i + (t >>> 1)) % 64)) s

unfoldable pub pattern_random : (ℕ → ℕ) → ℕ → ℕ → Strip → Strip
pattern_random rand len t s = if not (t % 8 == 0) then s else for_pixels len 0 rand s

unfoldable pub pattern_sparkle : (ℕ → ℕ) → ℕ → ℕ → Strip → Strip
pattern_sparkle rand len t s =
    if not (t % 8 == 0)
    then s
    else for_pixels len 0 (λ i. if not (rand i % 16 == 0) then 0 else 0xffffffff) s

-- The loop of `pattern_greys`, with `t` below 100.
abbrev pub greys_loop : ℕ → ℕ → Strip → Strip
greys_loop zero t s = s
greys_loop (suc n) t s =
    greys_loop n (if leb 100 (t + 1) then 0 else t + 1) (put_pixel s (t * 0x10101))

abbrev pub pattern_greys : ℕ → ℕ → Strip → Strip
pattern_greys len t s = greys_loop len (t % 100) s

abbrev pub pattern_solid : ℕ → ℕ → Strip → Strip
pattern_solid len t s = for_pixels len 0 (λ i. 0x10101) s

-- The strip and the static `error`.
abbrev pub pattern_fade : ℕ → ℕ → ℕ → Strip → Strip × ℕ
pattern_fade len t error s =
    let slow_t = 8 % (16 <<< 4) + error in
    (for_pixels len 0 (λ i. (slow_t >>> 4) * 0x010101) s, bit_and slow_t ((1 <<< 4) - 1))

abbrev pub pixel_size : Strip → ℕ
pixel_size s = if s.four_color then 4 else 3

length-put_pixel : (s : Strip) (p : ℕ) → length (put_pixel s p).out ≡ length s.out + pixel_size s
length-put_pixel s p = elim (Bool-cases s.four_color) [
  | inl e ↦ rw e (length-append s.out _)
  | inr e ↦ rw e (length-append s.out _)
]

-- What it means that a strip of `len` pixels has been written.
pub record Filled (len : ℕ) (s s' : Strip) : Type 0 where
  pub size : length s'.out ≡ length s.out + len * pixel_size s
  pub kind : s'.four_color ≡ s.four_color

for_pixels-Filled : (n i : ℕ) (color : ℕ → ℕ) (s : Strip) → Filled n s (for_pixels n i color s)
for_pixels-Filled zero i color s = record { size = omega arith; kind = refl }
for_pixels-Filled (suc n) i color s =
    let rest = for_pixels-Filled n (i + 1) color (put_pixel s (color i)) in
    record { size = omega (arith, rest.size, length-put_pixel s (color i)); kind = rest.kind }

greys-Filled : (n t : ℕ) (s : Strip) → Filled n s (greys_loop n t s)
greys-Filled zero t s = record { size = omega arith; kind = refl }
greys-Filled (suc n) t s =
    let rest = greys-Filled n (if leb 100 (t + 1) then 0 else t + 1) (put_pixel s (t * 0x10101)) in
    record { size = omega (arith, rest.size, length-put_pixel s (t * 0x10101)); kind = rest.kind }

-- Each pattern writes exactly `len` pixels, of 3 or 4 bytes as the strip has it, or, for the two
-- random patterns at a time that 8 does not divide, nothing.
pub patterns_fill :
    (rand : ℕ → ℕ) (len t : ℕ) (s : Strip)
    → Filled len s (pattern_snakes len t s)
      × Filled len s (pattern_greys len t s)
      × Filled (if not (t % 8 == 0) then 0 else len) s (pattern_random rand len t s)
      × Filled (if not (t % 8 == 0) then 0 else len) s (pattern_sparkle rand len t s)
unfolding pattern_random pattern_sparkle
patterns_fill rand len t s =
    let nothing : Filled 0 s s = record { size = omega arith; kind = refl } in
    (
      for_pixels-Filled len 0 _ s,
      greys-Filled len (t % 100) s,
      elim (Bool-cases (t % 8 == 0)) [
        | inl e ↦ rw e (for_pixels-Filled len 0 rand s)
        | inr e ↦ rw e nothing
      ],
      elim (Bool-cases (t % 8 == 0)) [
        | inl e ↦ rw e (for_pixels-Filled len 0 _ s)
        | inr e ↦ rw e nothing
      ],
    )
