-- ===== src/Microscope/Commands.antt =====
-- spi_master/transceiver and loop/common_data: the line of numbers that is a command, the flags that it
-- sets, and `stopAll` of utilities/hardcoded_functions.cpp. A line is the codes of its characters.
use pico_cpp.Common.{ℕ, zero, suc, ◌-◌, ◌^◌, List, [], ◌∷◌, ◌++◌, Option, none, some, length}
use pico_cpp.Common.{Bool, true, false, ◌==◌, leb, ◌&&◌, if◌then◌else◌, drop, replicate}
use pico_cpp.Http.Server.{until, behind}
use pico_cpp.Microscope.Scanner.{Scan}

-- The globals of common_variables.cpp; those that the scanner uses are in `scan`. `measured` is `afc`,
-- in pairs, and `scan_buf` the static array of the frequency scan.
pub record Controller : Type 0 where
  pub ad9833_sender : Bool
  pub ad8400_sender : Bool
  pub ad7606_enable_disable : Bool
  pub ad7606_reset : Bool
  pub ad7606_read : Bool
  pub ad7606_read_forever : Bool
  pub ad7606_stop_scan : Bool
  pub ad9833_set_freq : Bool
  pub ad8400_set_gain : Bool
  pub ad7606_get_value : Bool
  pub ad5664 : Bool
  pub config_update : Bool
  pub move_command : Bool
  pub set_io : Bool
  pub set_one_io : Bool
  pub lid : Bool
  pub lid_until_stop : Bool
  pub dac8563_set_voltage : Bool
  pub dac8563_init : Bool
  pub convergence : Bool
  pub convergence_config_update : Bool
  pub ad7606_is_scanning : Bool
  pub is_already_scanning : Bool
  pub scan_index : ℕ
  pub current_freq : ℕ
  pub current_channel : ℕ
  pub scan_buf : List ℕ
  pub measured : List (ℕ × ℕ)
  pub scan : Scan

unfoldable pub stop_all : Controller → Controller
stop_all c = record c {
  ad9833_sender = false;
  ad8400_sender = false;
  ad7606_enable_disable = false;
  ad7606_reset = false;
  ad7606_read = false;
  ad7606_read_forever = false;
  ad7606_stop_scan = true;
  ad9833_set_freq = false;
  ad8400_set_gain = false;
  ad7606_get_value = false;
  ad5664 = false;
  config_update = false;
  move_command = false;
  set_io = false;
  set_one_io = false;
  lid = false;
  lid_until_stop = false;
  dac8563_set_voltage = false;
  dac8563_init = false;
  convergence = false;
  ad7606_is_scanning = false;
  is_already_scanning = false;
  scan_index = 0;
  current_freq = 0;
  measured = [];
  scan = record c.scan {
    stop_all = true;
    micro_scan = false;
    adc = record c.scan.adc { ready = true };
  };
}

-- What a command does, as its number is dispatched; `none` is `activateError`, which never returns.
unfoldable pub dispatch : ℕ → Controller → Option Controller
unfolding stop_all
dispatch command c =
    if command == 1
    then some (record c { ad9833_sender = true })
    else if command == 5
    then some (record c { ad8400_sender = true })
    else if command == 6
    then some (record c { ad7606_enable_disable = true })
    else if command == 11
    then some (record c { ad7606_reset = true })
    else if command == 12
    then some (record c { ad7606_read = true })
    else if command == 21
    then some (record c { ad5664 = true })
    else if command == 22
    then some (record c { dac8563_set_voltage = true })
    else if command == 23
    then some (record c { dac8563_init = true })
    else if command == 24
    then some (record c { ad7606_get_value = true })
    else if command == 25
    then some (record c { ad7606_is_scanning = true })
    else if command == 26
    then some (record c { ad7606_stop_scan = true })
    else if command == 30
    then some (record c { ad9833_set_freq = true })
    else if command == 40
    then some (record c { ad8400_set_gain = true })
    else if command == 50
    then some (record c { config_update = true; scan = record c.scan { micro_scan = true } })
    else if command == 51
    then some (record c { move_command = true })
    else if command == 52
    then some (record c { scan = record c.scan { stop_all = true } })
    else if command == 53
    then some (record c { scan = record c.scan { micro_scan = true } })
    else if command == 55
    then some (record c { config_update = true })
    else if command == 60
    then some (record c { set_io = true })
    else if command == 61
    then some (record c { set_one_io = true })
    else if command == 70
    then some (stop_all c)
    else if command == 75
    then some (record c { convergence = true })
    else if command == 76
    then some (record c { convergence_config_update = true })
    else if command == 80
    then some (record c { lid_until_stop = true })
    else if leb 90 command && leb command 99
    then some (record c { lid = true })
    else none

abbrev pub comma : ℕ
comma = 44

-- `vector` has 15 places.
abbrev pub vector_size : ℕ
vector_size = 15

-- What `parse` leaves in the array, and its size.
unfoldable pub loaded : List ℕ → Option (List ℕ) → Option (List ℕ × ℕ)
loaded cleared none = none
loaded cleared (some values) = some (values ++ drop (length values) cleared, length values)

module _ (atoi : List ℕ → ℕ) where
  -- `parseInts`, with the places that are left in the array: `none` when it writes behind its end.
  unfoldable pub parse_ints : ℕ → List ℕ → Option (List ℕ)
  unfolding behind
  parse_ints zero offset = none
  parse_ints (suc room) offset = elim (behind comma offset) [
    | none ↦ some (atoi offset ∷ [])
    | some next ↦ elim (parse_ints room next) [
      | none ↦ none
      | some values ↦ some (atoi offset ∷ values)
    ]
  ]

  -- The first ten places become -1 before; the numbers are written over these. A line is read as a
  -- string of C.
  unfoldable pub parse : List ℕ → List ℕ → Option (List ℕ × ℕ)
  unfolding loaded
  parse line vector =
      loaded (replicate 10 (2 ^ 32 - 1) ++ drop 10 vector) (parse_ints vector_size (until 0 line))
