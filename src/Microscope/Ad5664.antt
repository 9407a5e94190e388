-- ===== src/Microscope/Ad5664.antt =====
-- spi_master/devices/ad5664.cpp: the converter AD5664, as what is sent to it. The commands have the
-- names of ad5664.hpp, and the modes those of the commands they stand for.
use pico_cpp.Common.{ℕ, List, [], ◌∷◌, ◌++◌, Bool, true, false, ◌==◌, ◌||◌, if◌then◌else◌}
use pico_cpp.Common.{bit_and, bit_or, u8, ◌<<<◌, ◌>>>◌, get_or}
use pico_cpp.Microscope.Board.{Event, spi_write, enable, disable}

abbrev pub write_input_register : ℕ
write_input_register = 0x00

abbrev pub update_dac_register : ℕ
update_dac_register = 0x08

abbrev pub write_input_register_update_all : ℕ
write_input_register_update_all = 0x10

abbrev pub write_update_channel : ℕ
write_update_channel = 0x18

abbrev pub power_updown : ℕ
power_updown = 0x20

abbrev pub reset_command : ℕ
reset_command = 0x28

abbrev pub set_ldac : ℕ
set_ldac = 0x30

abbrev pub reference_onoff : ℕ
reference_onoff = 0x38

abbrev pub dec : ℕ
dec = 10

unfoldable pub write_message : ℕ → ℕ → ℕ → List Event
write_message command address word =
    disable dec
    ∷ spi_write (
        bit_or (bit_and command 0x38) (bit_and address 0x07)
        ∷ u8 (word >>> 8)
        ∷ u8 (bit_and word 0x00ff)
        ∷ [])
    ∷ enable dec
    ∷ []

unfoldable pub is_set_mode : ℕ → Bool
is_set_mode mode =
    (mode == write_input_register)
    || (mode == write_update_channel)
    || (mode == write_input_register_update_all)

unfoldable pub set_channel : ℕ → ℕ → ℕ → List Event
unfolding write_message is_set_mode
set_channel set_mode channel value =
    if is_set_mode set_mode then write_message set_mode channel value else []

-- The channels 3, 2, 1 and 0, in this order, of an array of their four values.
unfoldable pub set_channels : ℕ → List ℕ → List Event
unfolding write_message is_set_mode
set_channels set_mode values =
    if is_set_mode set_mode
    then write_message set_mode 3 (get_or values 0 0)
      ++ (write_message set_mode 2 (get_or values 1 0)
          ++ (write_message set_mode 1 (get_or values 2 0)
              ++ write_message set_mode 0 (get_or values 3 0)))
    else []

unfoldable pub update_channel : ℕ → List Event
unfolding write_message
update_channel channel = write_message update_dac_register channel 0

abbrev pub of_bool : Bool → ℕ
of_bool true = 1
of_bool false = 0

unfoldable pub make_channel_mask : Bool → Bool → Bool → Bool → ℕ
make_channel_mask channel_d channel_c channel_b channel_a =
    bit_or
      (bit_or (bit_or (of_bool channel_d <<< 3) (of_bool channel_c <<< 2))
        (of_bool channel_b <<< 1))
      (of_bool channel_a)

unfoldable pub power_up_down : ℕ → ℕ → List Event
unfolding write_message
power_up_down power_mode channel_mask =
    write_message power_updown 0 (bit_or (bit_and 0x30 power_mode) (bit_and 0x0f channel_mask))

-- The modes of four channels, from the mask of the first.
unfoldable pub power_up_down_each : List ℕ → ℕ → List Event
unfolding power_up_down
power_up_down_each [] channel_mask = []
power_up_down_each (mode ∷ modes) channel_mask =
    power_up_down mode channel_mask ++ power_up_down_each modes (u8 (channel_mask <<< 1))

unfoldable pub reset : Bool → List Event
unfolding write_message
reset full_reset = write_message reset_command 0 (of_bool full_reset)

unfoldable pub set_input_mode : ℕ → List Event
unfolding write_message
set_input_mode channel_mask = write_message set_ldac 0 channel_mask

unfoldable pub use_internal_reference : Bool → List Event
unfolding write_message
use_internal_reference yesno = write_message reference_onoff 0 (of_bool yesno)
