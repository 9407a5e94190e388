-- ===== src/Microscope/Converters.antt =====
-- spi_master/devices/DAC8563.cpp and utilities/hardcoded_functions.cpp: the converter DAC8563, the generator
-- AD9833 and the amplifier AD8400, as what is sent to them. A number is what its C type holds, an
-- `int` its 32-bit pattern.
use pico_cpp.Common.{ℕ, ◌+◌, ◌*◌, ◌/◌, ◌%◌, ◌^◌, List, [], ◌∷◌, ◌++◌}
use pico_cpp.Common.{◌==◌, if◌then◌else◌, bit_and, bit_or, u8, u16, ◌<<<◌, ◌>>>◌, take}
use pico_cpp.Microscope.Board.{Event, spi_write, active_port, set_properties}

-- DAC8563.hpp
abbrev pub cmd_seta_updatea : ℕ
cmd_seta_updatea = 0x18

abbrev pub cmd_setb_updateb : ℕ
cmd_setb_updateb = 0x19

abbrev pub cmd_gain : ℕ
cmd_gain = 0x02

abbrev pub cmd_pwr_up_a_b : ℕ
cmd_pwr_up_a_b = 0x20

abbrev pub cmd_reset_all_reg : ℕ
cmd_reset_all_reg = 0x28

abbrev pub cmd_ldac_dis : ℕ
cmd_ldac_dis = 0x30

abbrev pub cmd_internal_ref_en : ℕ
cmd_internal_ref_en = 0x38

-- DAC8563.cpp; `input` is a `uint16_t`.
unfoldable pub write_value : ℕ → ℕ → ℕ → List Event
write_value cmd_byte mid last = spi_write (cmd_byte ∷ mid ∷ last ∷ []) ∷ []

unfoldable pub out_put_value : ℕ → ℕ → List Event
unfolding write_value
out_put_value cmd_byte input =
    let input_mid = u8 (input <<< 8 >>> 8) in
    let input_last = u8 (input >>> 8) in write_value cmd_byte input_last input_mid

unfoldable pub write_a : ℕ → List Event
unfolding out_put_value
write_a input = out_put_value cmd_seta_updatea (u16 input)

unfoldable pub write_b : ℕ → List Event
unfolding out_put_value
write_b input = out_put_value cmd_setb_updateb (u16 input)

unfoldable pub dac_wr_reg : ℕ → ℕ → ℕ → List Event
unfolding active_port
dac_wr_reg port cmd_byte data_byte =
    active_port port
    ++ (spi_write (cmd_byte ∷ u8 (data_byte >>> 8) ∷ u8 (data_byte <<< 8 >>> 8) ∷ [])
        ∷ active_port 7)

unfoldable pub initialize : ℕ → List Event
unfolding dac_wr_reg
initialize port =
    dac_wr_reg port cmd_reset_all_reg 0x0001
    ++ (dac_wr_reg port cmd_pwr_up_a_b 0x0003
        ++ (dac_wr_reg port cmd_internal_ref_en 0x0001
            ++ (dac_wr_reg port cmd_gain 0x0000 ++ dac_wr_reg port cmd_ldac_dis 0x0003)))

abbrev pub set_spi_props : List Event
set_spi_props = set_properties 8 0 1

-- `channel` is a `uint8_t`, so that `channel--` makes 255 of 0.
unfoldable pub set_on_cap : ℕ → ℕ → List Event
unfolding active_port write_a write_b
set_on_cap channel value =
    let channel = u8 (channel + 255) in
    active_port 3
    ++ (set_spi_props
        ++ ((if channel == 0 then write_a value else [])
            ++ (if channel == 1 then write_b value else [])))

-- `int64_t(freq * scale / 25.0e6)`: the quotient of doubles that is cut off, which is this one below
-- 2 ^ 31.
unfoldable pub n_reg : ℕ → ℕ
n_reg freq = freq * 2 ^ 28 / 25000000

abbrev pub flag_freq : ℕ
flag_freq = 2 ^ 14

unfoldable pub set_freq : ℕ → List Event
unfolding active_port n_reg
set_freq freq =
    let n_low = bit_and (n_reg freq) 0x3fff in
    let n_hi = bit_and (n_reg freq >>> 14) 0x3fff in
    active_port 1
    ++ (set_properties 8 1 1
        ++ (spi_write (u8 (bit_or flag_freq n_low / 0x100) ∷ bit_or flag_freq n_low % 0x100 ∷ [])
            ∷ spi_write (u8 (bit_or flag_freq n_hi / 0x100) ∷ bit_or flag_freq n_hi % 0x100 ∷ [])
            ∷ spi_write (0x20 ∷ 0x00 ∷ [])
            ∷ []))

-- Three bytes are sent from an array of one: `beyond` is the memory behind it.
unfoldable pub set_gain : List ℕ → ℕ → ℕ → List Event
unfolding active_port
set_gain beyond gain p =
    active_port p ++ (set_properties 8 0 0 ++ (spi_write (u8 gain ∷ take 2 beyond) ∷ []))
