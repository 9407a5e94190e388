-- ===== src/Ssd1306/Render.antt =====
-- ssd1306_i2c.c: what the display gets for a part of the picture.
use pico_cpp.Common.{ℕ, ◌+◌, ◌-◌, ◌*◌, ◌≤◌, ◌≡◌, refl, ap, sym, ◌∙◌, arith, List, [], ◌∷◌, ◌++◌}
use pico_cpp.Common.{length, length-take, take, map}
use pico_cpp.Ssd1306.Commands.{RenderArea, calc_render_area_buflen, ssd1306_send_cmd}
use pico_cpp.Ssd1306.Commands.{ssd1306_send_cmd_list, ssd1306_send_buf, render}
use mathlib.Core.List.{append_assoc}

-- A command goes out behind a control byte of its own.
abbrev pub framed : List ℕ → List (List ℕ)
framed cmds = map (λ c. 0x80 ∷ c ∷ []) cmds

send_cmd_list_lem :
    (cmds : List ℕ) (bus : List (List ℕ)) → ssd1306_send_cmd_list bus cmds ≡ bus ++ framed cmds
unfolding ssd1306_send_cmd_list ssd1306_send_cmd
send_cmd_list_lem [] bus = sym (append_none bus)
  where
    append_none : (xs : List (List ℕ)) → xs ++ [] ≡ xs
    append_none [] = refl
    append_none (x ∷ xs) = ap (λ l. x ∷ l) (append_none xs)
send_cmd_list_lem (c ∷ cmds) bus =
    send_cmd_list_lem cmds (bus ++ ((0x80 ∷ c ∷ []) ∷ []))
    ∙ append_assoc bus ((0x80 ∷ c ∷ []) ∷ []) (framed cmds)

-- The display is told the columns and the pages of the area, and then gets exactly as many bytes as
-- the area has: the front of the buffer, in one transfer. The area is not empty and the buffer
-- holds that many bytes.
pub render_lem :
    (bus : List (List ℕ)) (buf : List ℕ) (area : RenderArea)
    → area.start_col ≤ area.end_col
    → area.start_page ≤ area.end_page
    → (area.end_col + 1 - area.start_col) * (area.end_page + 1 - area.start_page) ≤ length buf
    → (bytes : List ℕ) × (render bus buf (calc_render_area_buflen area)
        ≡ bus
          ++ (framed
                (0x21 ∷ area.start_col ∷ area.end_col ∷ 0x22 ∷ area.start_page ∷ area.end_page ∷ [])
              ++ ((0x40 ∷ bytes) ∷ [])))
      × (length bytes ≡ (area.end_col + 1 - area.start_col) * (area.end_page + 1 - area.start_page))
      × (bytes ≡ take (length bytes) buf)
unfolding render ssd1306_send_buf calc_render_area_buflen
render_lem bus buf area cols pages room =
    let n : ℕ = (area.end_col + 1 - area.start_col) * (area.end_page + 1 - area.start_page) in
    let cmds : List ℕ =
      0x21 ∷ area.start_col ∷ area.end_col ∷ 0x22 ∷ area.start_page ∷ area.end_page ∷ [] in
    let size : length (take n buf) ≡ n = omega (arith, length-take n buf) in
    (
      take n buf,
      ap (λ l. l ++ ((0x40 ∷ take n buf) ∷ [])) (send_cmd_list_lem cmds bus)
          ∙ append_assoc bus (framed cmds) ((0x40 ∷ take n buf) ∷ []),
      size,
      ap (λ k. take k buf) (sym size),
    )
