-- ===== src/Tests/Devices.antt =====
-- The display, the I2C memory, the infrared frames and the LED strips on concrete inputs.
use pico_cpp.Common.{length, ℕ, ◌+◌, ◌%◌, ◌^◌, ◌<◌, ◌≡◌, refl, arith, List, [], ◌∷◌, ◌++◌}
use pico_cpp.Common.{some, true, get_or, get_or-replicate}
use pico_cpp.Common.{replicate, take, drop}
use pico_cpp.SlaveMem.Slave.{run_master}
use pico_cpp.SlaveMem.ReadBack.{idle, written, run_master_lem}
use pico_cpp.Nec.{nec_encode_frame, nec_decode_frame, decode-encode, encode-decode}
use pico_cpp.Ssd1306.Commands.{RenderArea, calc_render_area_buflen, render}
use pico_cpp.Ssd1306.Render.{framed, render_lem}
use pico_cpp.Ssd1306.Draw.{Screen, set_pixel, write_char, reverse}
use pico_cpp.Ssd1306.Pixels.{Frame, Painted, set_pixel_lem, reverse_lem, mirrored}
use pico_cpp.Ssd1306.Glyphs.{Shown, write_char_lem}
use pico_cpp.Ws2812.Planes.{add_error}
use pico_cpp.Ws2812.Patterns.{Strip, Filled, patterns_fill, pattern_snakes, pattern_greys}
use pico_cpp.Ws2812.Patterns.{pattern_random, pattern_sparkle}
use pico_cpp.Ws2812.Dither.{strip_value, add_error_lem}
use pico_cpp.Ssd1306.Line.{draw_line}
use pico_cpp.Ssd1306.DrawLine.{Drawn}
use pico_cpp.Ssd1306.WholeLine.{draw_line_lem}
use pico_cpp.Ws2812.Frames.{shown_sum, after_frames, dither_exact}
use pico_cpp.Ws2812.Transform.{StripData, transform_strips}
use pico_cpp.Ws2812.Strips.{shown, transform_strips_lem}
use pico_cpp.Common.{◌*◌, get_elem?}

abbrev message : List ℕ
message = 72 ∷ 101 ∷ 108 ∷ 108 ∷ 111 ∷ 33 ∷ []

-- The message wraps around the end of the memory.
run_master_lem_example :
    run_master (idle (replicate 256 0) 0) 253 message
    ≡ (idle (written (replicate 256 0) 253 message) 3, (take 5 message, drop 5 message))
run_master_lem_example =
    run_master_lem (replicate 256 0) 0 253 message refl (omega arith) (omega arith) (omega arith)

decode-encode_example : nec_decode_frame (nec_encode_frame 0x12 0xf0) ≡ some (0x12, 0xf0)
decode-encode_example = decode-encode 0x12 0xf0 (omega arith) (omega arith)

decoded : nec_decode_frame 0xff00ff00 ≡ some (0, 0)
unfolding nec_decode_frame
decoded = refl

encode-decode_example : 0xff00ff00 ≡ nec_encode_frame 0 0
encode-decode_example = encode-decode 0xff00ff00 0 0 (omega arith) decoded

blank-Frame : Frame (replicate 512 0)
blank-Frame = record {
  size = refl;
  bytes = λ i. zero_below (get_or (replicate 512 0) i 0) (get_or-replicate 512 i 0);
}
  where
    zero_below : (x : ℕ) → x ≡ 0 → x < 256
    zero_below x e = omega arith

set_pixel_lem_example :
    (buf' : List ℕ) × (set_pixel (replicate 512 0) 100 17 true ≡ some buf')
    × Painted (replicate 512 0) 100 17 true buf'
set_pixel_lem_example =
    set_pixel_lem (replicate 512 0) 100 17 true blank-Frame (omega arith) (omega arith)

reverse_lem_example : reverse 0x1e ≡ mirrored 0x1e
reverse_lem_example = reverse_lem 0x1e (omega arith)

abbrev blank : Screen
blank = record { buf = replicate 512 0; reversed = replicate 296 0 }

abbrev upper : ℕ → ℕ
upper c = c

write_char_lem_example :
    (s' : Screen) × (write_char (replicate 296 1) upper blank 120 24 65 ≡ some s')
    × Shown (replicate 296 1) upper blank 120 24 65 s'
write_char_lem_example =
    write_char_lem (replicate 296 1) upper blank 120 24 65 refl refl refl (omega arith)
      (omega arith)

abbrev planes : List ℕ
planes = 1 ∷ 2 ∷ 3 ∷ 0 ∷ 1 ∷ 2 ∷ 3 ∷ 0 ∷ 3 ∷ 2 ∷ 1 ∷ 3 ∷ []

add_error_lem_example :
    strip_value (add_error planes planes) 1
    ≡ (strip_value planes 1 + strip_value planes 1 % 2 ^ 4) % 2 ^ 12
add_error_lem_example = add_error_lem planes planes 1 refl refl

abbrev strip : Strip
strip = record { out = []; four_color = true }

patterns_fill_example :
    Filled 64 strip (pattern_snakes 64 3 strip)
    × Filled 64 strip (pattern_greys 64 3 strip)
    × Filled 0 strip (pattern_random (λ i. i) 64 3 strip)
    × Filled 0 strip (pattern_sparkle (λ i. i) 64 3 strip)
patterns_fill_example = patterns_fill (λ i. i) 64 3 strip

-- The right half of the third page.
abbrev part : RenderArea
part = record { start_col = 64; end_col = 127; start_page = 2; end_page = 2; buflen = 0 }

render_lem_example :
    (bytes : List ℕ) × (render [] (replicate 512 7) (calc_render_area_buflen part)
      ≡ [] ++ (framed (0x21 ∷ 64 ∷ 127 ∷ 0x22 ∷ 2 ∷ 2 ∷ []) ++ ((0x40 ∷ bytes) ∷ [])))
    × (length bytes ≡ 64)
    × (bytes ≡ take (length bytes) (replicate 512 7))
render_lem_example = render_lem [] (replicate 512 7) part (omega arith) (omega arith) (omega arith)

-- Two frames of half a step above 5, from a state without a fraction.
abbrev half_lit : List ℕ
half_lit = replicate 5 0 ++ 1 ∷ 0 ∷ 1 ∷ 1 ∷ 0 ∷ 0 ∷ 0 ∷ []

dither_exact_example :
    16 * shown_sum 2 half_lit (replicate 12 0) 0
      + strip_value (after_frames 2 half_lit (replicate 12 0)) 0 % 2 ^ 4
    ≡ 2 * strip_value half_lit 0 + strip_value (replicate 12 0) 0 % 2 ^ 4
dither_exact_example = dither_exact 2 half_lit (replicate 12 0) 0 refl refl (omega arith)

abbrev dim : StripData
dim = record { data_bytes = 10 ∷ 20 ∷ []; data_len = 2; frac_brightness = 0x40 }

abbrev bright : StripData
bright = record { data_bytes = 30 ∷ []; data_len = 1; frac_brightness = 0x100 }

transform_strips_lem_example :
    (planes : List ℕ) × (get_elem? (transform_strips (dim ∷ bright ∷ []) 2 0x1000) 0 ≡ some planes)
    × (length planes ≡ 12)
    × (strip_value planes 1 ≡ shown bright 0 0x1000)
transform_strips_lem_example =
    transform_strips_lem (dim ∷ bright ∷ []) bright 1 0 2 0x1000 refl (omega arith) (omega arith)

draw_line_lem_example :
    (buf' : List ℕ) × (draw_line (replicate 512 0) 100 3 20 31 true ≡ some buf')
    × Drawn (replicate 512 0) 100 3 20 31 true buf'
draw_line_lem_example =
    draw_line_lem (replicate 512 0) 100 3 20 31 true blank-Frame (omega arith) (omega arith)
      (omega arith) (omega arith)
