-- ===== src/Ssd1306/Commands.antt =====
-- ssd1306_i2c.c: the commands and the buffers that go to the display.
use pico_cpp.Common.{ℕ, ◌+◌, ◌-◌, ◌*◌, ◌/◌, List, [], ◌∷◌, ◌++◌, Bool, if◌then◌else◌}
use pico_cpp.Common.{bit_or, take}

abbrev pub ssd1306_height : ℕ
ssd1306_height = 32

abbrev pub ssd1306_width : ℕ
ssd1306_width = 128

abbrev pub ssd1306_buf_len : ℕ
ssd1306_buf_len = ssd1306_height / 8 * ssd1306_width

pub record RenderArea : Type 0 where
  pub start_col : ℕ
  pub end_col : ℕ
  pub start_page : ℕ
  pub end_page : ℕ
  pub buflen : ℕ

-- The area's ends are not before its starts.
unfoldable pub calc_render_area_buflen : RenderArea → RenderArea
calc_render_area_buflen area = record area {
  buflen = (area.end_col + 1 - area.start_col) * (area.end_page + 1 - area.start_page);
}

unfoldable pub ssd1306_send_cmd : List (List ℕ) → ℕ → List (List ℕ)
ssd1306_send_cmd bus cmd = bus ++ ((0x80 ∷ cmd ∷ []) ∷ [])

unfoldable pub ssd1306_send_cmd_list : List (List ℕ) → List ℕ → List (List ℕ)
unfolding ssd1306_send_cmd
ssd1306_send_cmd_list bus [] = bus
ssd1306_send_cmd_list bus (cmd ∷ cmds) = ssd1306_send_cmd_list (ssd1306_send_cmd bus cmd) cmds

unfoldable pub ssd1306_send_buf : List (List ℕ) → List ℕ → ℕ → List (List ℕ)
ssd1306_send_buf bus buf buflen = bus ++ ((0x40 ∷ take buflen buf) ∷ [])

unfoldable pub ssd1306_init : List (List ℕ) → List (List ℕ)
unfolding ssd1306_send_cmd_list
ssd1306_init bus = ssd1306_send_cmd_list bus (
    0xAE
    ∷ 0x20
    ∷ 0x00
    ∷ 0x40
    ∷ bit_or 0xA0 0x01
    ∷ 0xA8
    ∷ (ssd1306_height - 1)
    ∷ bit_or 0xC0 0x08
    ∷ 0xD3
    ∷ 0x00
    ∷ 0xDA
    ∷ 0x02
    ∷ 0xD5
    ∷ 0x80
    ∷ 0xD9
    ∷ 0xF1
    ∷ 0xDB
    ∷ 0x30
    ∷ 0x81
    ∷ 0xFF
    ∷ 0xA4
    ∷ 0xA6
    ∷ 0x8D
    ∷ 0x14
    ∷ 0x2E
    ∷ bit_or 0xAE 0x01
    ∷ [])

unfoldable pub ssd1306_scroll : List (List ℕ) → Bool → List (List ℕ)
unfolding ssd1306_send_cmd_list
ssd1306_scroll bus on =
    ssd1306_send_cmd_list bus
      (0x26 ∷ 0x00 ∷ 0x00 ∷ 0x00 ∷ 0x03 ∷ 0x00 ∷ 0xFF ∷ bit_or 0x2E (if on then 1 else 0) ∷ [])

unfoldable pub render : List (List ℕ) → List ℕ → RenderArea → List (List ℕ)
unfolding ssd1306_send_cmd_list ssd1306_send_buf
render bus buf area =
    let cmds = 0x21 ∷ area.start_col ∷ area.end_col ∷ 0x22 ∷ area.start_page ∷ area.end_page ∷ [] in
    ssd1306_send_buf (ssd1306_send_cmd_list bus cmds) buf area.buflen
