-- ===== src/Microscope/Board.antt =====
-- spi_master/utilities: what the controller does to its board, as a list of calls of the SDK in their
-- order, with the decoder of the select lines, the output ports and the coloured LED.
use pico_cpp.Common.{ℕ, zero, suc, ◌/◌, ◌%◌, ◌^◌, List, [], ◌∷◌, ◌++◌, Bool, true, false, ◌==◌}
use pico_cpp.Common.{if◌then◌else◌}

-- `cycles` is `busy_wait_at_least_cycles`, `spi_read` a read of so many 16-bit words, `print` a
-- number on `std::cout`, and the others of that are the fixed texts.
pub data Event : Type 0 where
  gpio_put : ℕ → Bool → Event
  spi_set_format : ℕ → ℕ → ℕ → ℕ → Event
  spi_write : List ℕ → Event
  spi_read : ℕ → Event
  sleep_us : ℕ → Event
  sleep_ms : ℕ → Event
  cycles : ℕ → Event
  print : ℕ → Event
  print_end print_end_line print_lid_is_ready print_code75 : Event

abbrev pub enable : ℕ → Event
enable port = gpio_put port true

abbrev pub disable : ℕ → Event
disable port = gpio_put port false

-- `binary[..] == '1' ? port.enable() : port.disable()`, by the place of the bit.
abbrev pub put_bit : ℕ → ℕ → ℕ → Event
put_bit port value place = gpio_put port (value / 2 ^ place % 2 == 1)

-- `decoder`, on the ports 4, 5 and 6.
unfoldable pub active_port : ℕ → List Event
active_port port = put_bit 6 port 2 ∷ put_bit 5 port 1 ∷ put_bit 4 port 0 ∷ []

-- `first` is 1 wherever it is called.
abbrev pub set_properties : ℕ → ℕ → ℕ → List Event
set_properties bit_in_word cpol chpa = spi_set_format bit_in_word cpol chpa 1 ∷ []

-- `io1_0` to `io3_1`, in the order of `io_ports`.
abbrev pub io_ports : List ℕ
io_ports = 11 ∷ 12 ∷ 13 ∷ 14 ∷ 15 ∷ 26 ∷ 27 ∷ []

abbrev pub io3_1 : ℕ
io3_1 = 27

unfoldable pub set_io_value : ℕ → ℕ → List Event
set_io_value port value =
    if port == 1
    then put_bit 11 value 0 ∷ put_bit 12 value 1 ∷ []
    else if port == 2
    then put_bit 13 value 0 ∷ put_bit 14 value 1 ∷ put_bit 15 value 2 ∷ []
    else if port == 3
    then put_bit 26 value 0 ∷ put_bit 27 value 1 ∷ []
    else []

abbrev pub rdb_led : ℕ
rdb_led = 23

-- A bit of the LED's colour: it is high for the first number of cycles and low for the second.
unfoldable pub led_bits : ℕ → ℕ → ℕ → List Event
led_bits zero high low = []
led_bits (suc n) high low =
    enable rdb_led ∷ cycles high ∷ disable rdb_led ∷ cycles low ∷ led_bits n high low

abbrev pub led_start : List Event
led_start = disable rdb_led ∷ sleep_us 60 ∷ []

unfoldable pub activate_green : List Event
unfolding led_bits
activate_green = led_start ++ (led_bits 8 85 35 ++ led_bits 16 35 85)

unfoldable pub activate_red : List Event
unfolding led_bits
activate_red = led_start ++ (led_bits 8 35 85 ++ (led_bits 8 85 35 ++ led_bits 8 35 85))

unfoldable pub activate_blue : List Event
unfolding led_bits
activate_blue = led_start ++ (led_bits 16 35 85 ++ led_bits 8 85 35)

unfoldable pub activate_dark : List Event
unfolding led_bits
activate_dark = led_start ++ led_bits 24 35 85

-- One round of `green`, `blue`, `red` or `dark`, by what it ends with.
abbrev pub flash : List Event → List Event
flash colour =
    activate_dark
    ++ (sleep_ms 100 ∷ activate_dark
        ++ (sleep_ms 100 ∷ activate_dark ++ (sleep_ms 100 ∷ colour ++ (sleep_ms 100 ∷ []))))

unfoldable pub rounds : ℕ → List Event → List Event
rounds zero events = []
rounds (suc n) events = events ++ rounds n events

unfoldable pub green : List Event
unfolding rounds
green = rounds 3 (flash activate_green)

unfoldable pub blue : List Event
unfolding rounds
blue = rounds 3 (flash activate_blue)

unfoldable pub red : List Event
unfolding rounds
red = rounds 3 (flash activate_red)

unfoldable pub dark : List Event
unfolding rounds
dark = rounds 3 (flash activate_dark)
