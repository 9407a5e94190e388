-- ===== src/Tests/Microscope.antt =====
-- The controller of the microscope on concrete inputs.
use pico_cpp.Common.{ℕ, ◌+◌, ◌-◌, ◌*◌, ◌/◌, ◌%◌, ◌^◌, ◌<◌, ◌≤◌, ◌≡◌, refl, arith, List, [], ◌∷◌}
use pico_cpp.Common.{◌++◌, none, some, true, false, ltb, map, length, u16, drop}
use pico_cpp.Common.{replicate, All, if◌then◌else◌}
use pico_cpp.Microscope.Board.{Event, active_port, set_properties, print_end_line, set_io_value}
use pico_cpp.Microscope.Converters.{set_freq}
use pico_cpp.Microscope.Scanner.{Adc, Config, Scan, move_to, start_scan, com_receive_isr}
use pico_cpp.Microscope.Tracking.{reached, visits, is_output, is_reading}
use pico_cpp.Microscope.Ways.{along, between}
use pico_cpp.Microscope.Moves.{move_to_lem}
use pico_cpp.Microscope.Raster.{row, lines}
use pico_cpp.Microscope.ScanLines.{reads_raster}
use pico_cpp.Microscope.Sent.{
  frequency_words, set_freq_lem, levels, spelled, group, set_io_value_lem,
}
use pico_cpp.Microscope.Driver.{activate}
use pico_cpp.Microscope.Pulses.{rises, slept, activate_lem}
use pico_cpp.Microscope.Commands.{Controller, stop_all, parse}
use pico_cpp.Microscope.Parsing.{joined, parse_lem}
use pico_cpp.Microscope.Chips.{Round, Env, act}
use pico_cpp.Microscope.Loop.{turn, sweep_turn, shown}
use pico_cpp.Microscope.Sweep.{turns, points}
use pico_cpp.Microscope.Swept.{frequencies_swept}
use pico_cpp.Microscope.Stopping.{interrupt, here, after, stopped_turn, stop_while_waiting}
use pico_cpp.Microscope.Stopping.{served, purposes, used_up}
use pico_cpp.Microscope.Approach.{Approach, ask_z}

abbrev converter : Adc
converter = record { ready = true; z_state = false; ad7606_value = 0; spi_buf = replicate 8 0 }

-- Two lines of two points, three apart, and the lines two apart.
abbrev small_raster : Config
small_raster = record {
  n_points_x = 2;
  n_points_y = 2;
  path = 0;
  method = 0;
  delay_f = 10;
  delay_b = 5;
  between_points_x = 3;
  between_points_y = 2;
  flag = 0;
}

abbrev standing : Scan
standing = record {
  pos_x = 1;
  pos_y = 4;
  prev_x = 0;
  prev_y = 0;
  conf = small_raster;
  vector_z = [];
  other_info = [];
  adc = converter;
  conversions = 0;
  stop_all = false;
  micro_scan = true;
  events = [];
}

-- Each conversion reads its own number on every channel.
abbrev numbered : ℕ → List ℕ
numbered k = replicate 8 k

move_to_lem_example :
    (visits is_output (move_to 3 2 10 standing).events (1, 4)
      ≡ map (λ v. (v, 4)) (between 1 3) ++ map (λ v. (3, v)) (between 4 2))
    × (reached (move_to 3 2 10 standing).events (1, 4) ≡ (3, 2))
    × ((move_to 3 2 10 standing).pos_x ≡ 3)
    × ((move_to 3 2 10 standing).pos_y ≡ 2)
move_to_lem_example =
    move_to_lem standing 3 2 10 refl (omega arith) (omega arith) (omega arith) (omega arith)

abbrev scanned : Scan
scanned = start_scan numbered (λ i. 0) (λ i. false) standing

reads_raster_example :
    (visits is_reading scanned.events (1, 4)
      ≡ along (λ i. row 3 1 (u16 (4 + i * 2)) 0 2) (lines (λ i. false) 2 0))
    × (reached scanned.events (1, 4) ≡ (1, 4))
    × (scanned.pos_x ≡ 1)
    × (scanned.pos_y ≡ 4)
reads_raster_example =
    reads_raster numbered (λ i. 0) (λ i. false) standing refl (omega arith) (omega arith)

-- The raster of this scan, point by point.
small_raster_points :
    along (λ i. row 3 1 (u16 (4 + i * 2)) 0 2) (lines (λ i. false) 2 0)
    ≡ (4, 4) ∷ (4, 4) ∷ (7, 4) ∷ (7, 4) ∷ (4, 6) ∷ (4, 6) ∷ (7, 6) ∷ (7, 6) ∷ []
unfolding along row lines
small_raster_points = refl

set_freq_lem_example :
    (n : ℕ) × (frequency_words (set_freq 1000000) ≡ n % 2 ^ 14 ∷ n / 2 ^ 14 ∷ [])
    × (n * 25000000 ≤ 1000000 * 2 ^ 28)
    × (1000000 * 2 ^ 28 < (n + 1) * 25000000)
set_freq_lem_example = set_freq_lem 1000000 (omega arith)

set_io_value_lem_example :
    (spelled (levels (set_io_value 2 5) (λ q. false)) (group 2) ≡ 5 % 2 ^ length (group 2))
    × (levels (set_io_value 2 5) (λ q. false) 26 ≡ false)
unfolding group
set_io_value_lem_example = set_io_value_lem 2 5 (λ q. false) 26 (omega arith)

activate_lem_example :
    (es : List Event) × (activate 95 5000 750 3 false ≡ some es)
    × (levels es (λ q. false) 20 ≡ false)
    × (levels es (λ q. false) 21 ≡ false)
    × (levels es (λ q. false) 27 ≡ false)
    × (rises 21 false es ≡ 3)
    × (slept es ≤ 3 * (1000000 / 5000))
    × (3 * (1000000 / 5000) ≤ slept es + 3)
unfolding activate
activate_lem_example =
    activate_lem 95 5000 750 3 false (λ q. false) 27 (omega arith) (omega arith) (omega arith)
      (omega arith) (λ e. absurd (omega (arith, e))) (λ e. absurd (omega (arith, e)))

-- A number as one character, from '0' on.
abbrev first_digit : List ℕ → ℕ
first_digit [] = 0
first_digit (d ∷ rest) = d - 48

parse_lem_example :
    parse first_digit (joined (λ n. (48 + n) ∷ []) 5 (1 ∷ 2 ∷ [])) (replicate 15 7) ≡ (
      if ltb 2 15
      then some (5 ∷ 1 ∷ 2 ∷ drop 3 (replicate 10 (2 ^ 32 - 1) ++ drop 10 (replicate 15 7)), 3)
      else none)
parse_lem_example =
    parse_lem first_digit (λ n. (48 + n) ∷ []) (λ n. (omega arith, tt)) (λ n. (omega arith, tt))
      (λ n. omega arith) (λ n rest. omega arith) 5 (1 ∷ 2 ∷ []) (replicate 15 7)

abbrev resting : Controller
resting = record {
  ad9833_sender = false;
  ad8400_sender = false;
  ad7606_enable_disable = false;
  ad7606_reset = false;
  ad7606_read = false;
  ad7606_read_forever = false;
  ad7606_stop_scan = false;
  ad9833_set_freq = false;
  ad8400_set_gain = false;
  ad7606_get_value = false;
  ad5664 = false;
  config_update = false;
  move_command = false;
  set_io = false;
  set_one_io = false;
  lid = false;
  lid_until_stop = false;
  dac8563_set_voltage = false;
  dac8563_init = false;
  convergence = false;
  convergence_config_update = false;
  ad7606_is_scanning = true;
  is_already_scanning = false;
  scan_index = 0;
  current_freq = 0;
  current_channel = 0;
  scan_buf = replicate 5 0;
  measured = [];
  scan = standing;
}

-- The command 25 for three frequencies from 1000 on, 500 apart, on the first channel.
abbrev sweeping : Env
sweeping = record {
  vector = 25 ∷ 3 ∷ 1000 ∷ 500 ∷ 1 ∷ 20 ∷ replicate 9 0;
  words = numbered;
  outside = λ i. 0;
  beyond = 0 ∷ 0 ∷ [];
  stops = λ i. false;
  behind_data = 0;
  approach_rounds = [];
  lid_rounds = [];
}

abbrev swept : Controller
swept = turns sweeping 3 (sweep_turn sweeping resting)

frequencies_swept_example :
    (swept.measured ≡ points sweeping 1000 500 0 0 0 3)
    × ((sweep_turn sweeping swept).scan.events
        ≡ swept.scan.events ++ (shown (points sweeping 1000 500 0 0 0 3) ++ (print_end_line ∷ [])))
    × ((sweep_turn sweeping swept).measured ≡ [])
    × ((sweep_turn sweeping swept).is_already_scanning ≡ false)
    × ((sweep_turn sweeping swept).ad7606_is_scanning ≡ false)
    × ((sweep_turn sweeping swept).ad7606_stop_scan ≡ false)
frequencies_swept_example = frequencies_swept sweeping resting refl refl refl

-- After a stop of an idle controller the next scan measures nothing.
stopped_sweep :
    (turns sweeping 0 (sweep_turn sweeping (stop_all resting))).measured
    ≡ points sweeping 1000 500 0 0 0 0
unfolding stop_all
stopped_sweep = (frequencies_swept sweeping (stop_all resting) refl refl refl).0

sweep_points : points sweeping 1000 500 0 0 0 3 ≡ (1000, 0) ∷ (1500, 1) ∷ (2000, 2) ∷ []
unfolding points
sweep_points = refl

stopped_turn_example :
    turn sweeping (stop_all resting)
    ≡ some (act (active_port 3 ++ set_properties 1000 500 1) (stop_all resting))
stopped_turn_example = stopped_turn sweeping resting

-- The interrupt comes after the stop.
abbrev interrupted : Controller
interrupted =
    let c = stop_all (ask_z resting) in
    record c { scan = record c.scan { adc = (com_receive_isr (numbered 7) c.scan.adc).0 } }

stop_while_waiting_example :
    ((com_receive_isr (numbered 7) (ask_z resting).scan.adc).0.z_state ≡ false)
    × (interrupted.scan.adc.z_state ≡ true)
stop_while_waiting_example =
    stop_while_waiting resting interrupted (numbered 7)
      (after here (interrupt (stop_all (ask_z resting)) (numbered 7)))

used_up_example :
    All
      (λ (q : ℕ × (Scan → Scan)).
        served sweeping (stop_all resting) q.0
        ≡ some (record (stop_all resting) { scan = q.1 (stop_all resting).scan }))
      (purposes sweeping)
used_up_example = used_up sweeping resting

abbrev approaching : Approach
approaching = record {
  set_point = 100;
  gate_z_max = 60;
  gate_z_min = 50;
  nsteps = 2;
  intdelay = 1;
  gain = 3;
  speed = 0;
  scannerdecay = 0;
  z = 0;
  signal = 0;
  status = 30 ∷ 0 ∷ 0 ∷ [];
  set_io = false;
  scan = standing;
}

abbrev undisturbed : Round
undisturbed = record { converging = true; config_update = false; numbers = [] }
