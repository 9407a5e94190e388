-- ===== src/Microscope/Loop.antt =====
-- spi_master/loop/main_core.cpp: one turn of the loop of core 0. The numbers of the command stay the
-- same during a turn, but for those of the approach. `none` stands for a fault: a port behind `io_ports`, or what `activate` leaves out.
use pico_cpp.Common.{ℕ, ◌+◌, List, [], ◌∷◌, ◌++◌, Option, none, some, map, true, false}
use pico_cpp.Common.{not, ◌==◌, ◌&&◌, ltb, if◌then◌else◌, nonzero, u8, u16, sub32}
use pico_cpp.Common.{get_or, get_elem?}
use pico_cpp.Microscope.Board.{Event, gpio_put, sleep_ms, print}
use pico_cpp.Microscope.Board.{print_end_line, print_lid_is_ready}
use pico_cpp.Microscope.Board.{set_io_value, io_ports, green, blue}
use pico_cpp.Microscope.Converters.{set_freq}
use pico_cpp.Microscope.Scanner.{Config, emit, convert, spi_word, update, move_to, start_scan}
use pico_cpp.Microscope.Driver.{activate}
use pico_cpp.Microscope.Commands.{Controller}
use pico_cpp.Microscope.Approach.{approacphm, move_linear_driver_until_stop}
use pico_cpp.Microscope.Chips.{Env, act, v, set_frequency, set_amplifier, init_dac, main_spi}

-- The text `afc`, a frequency and its reading after the other.
unfoldable pub shown : List (ℕ × ℕ) → List Event
shown [] = []
shown ((freq, reading) ∷ rest) = print freq ∷ print reading ∷ shown rest

module _ (env : Env) where
  -- The frequency scan is started, measures at the next frequency, or ends.
  unfoldable pub sweep_start : Controller → Controller
  sweep_start c = record c {
    is_already_scanning = true;
    scan_buf = u16 (v env 1) ∷ u16 (v env 2) ∷ u16 (v env 3) ∷ u16 (v env 4) ∷ u16 (v env 5) ∷ [];
    current_channel = sub32 (u16 (v env 4)) 1;
  }

  unfoldable pub sweep_measure : Controller → Controller
  unfolding emit
  sweep_measure c =
      let word = λ (i : ℕ). get_or c.scan_buf i 0 in
      let s = emit (set_freq (word 1) ++ (sleep_ms (word 4) ∷ [])) c.scan in
      let s = convert env.words env.outside s in
      record c {
        scan_index = u16 (c.scan_index + 1);
        current_freq = u16 (word 1);
        measured =
            c.measured ++ ((word 1, spi_word env.words env.outside s c.current_channel) ∷ []);
        scan_buf = word 0 ∷ u16 (word 1 + word 2) ∷ word 2 ∷ word 3 ∷ word 4 ∷ [];
        scan = emit (sleep_ms 10 ∷ []) s;
      }

  unfoldable pub sweep_end : Controller → Controller
  unfolding emit
  sweep_end c = record c {
    measured = [];
    scan_index = 0;
    current_freq = 0;
    current_channel = sub32 0 1;
    is_already_scanning = false;
    ad7606_is_scanning = false;
    ad7606_stop_scan = false;
    scan = emit (shown c.measured ++ (print_end_line ∷ [])) c.scan;
  }

  unfoldable pub sweep_turn : Controller → Controller
  unfolding sweep_start sweep_measure sweep_end
  sweep_turn c =
      if not c.is_already_scanning
      then sweep_start c
      else if ltb c.scan_index (get_or c.scan_buf 0 0) && not c.ad7606_stop_scan
      then sweep_measure c
      else sweep_end c

  -- The flags that are looked at in front of the selection of a port.
  unfoldable pub set_one_io_value : Controller → Option Controller
  unfolding emit
  set_one_io_value c =
      let c' = record c { set_one_io = false } in
      elim (get_elem? io_ports (sub32 (v env 1) 1)) [
        | none ↦ none
        | some port ↦ some (act (gpio_put port (v env 2 == 1) ∷ []) c')
      ]

  unfoldable pub run_lid : Controller → Option Controller
  unfolding emit activate
  run_lid c =
      let word = λ (i : ℕ). u16 (v env i) in
      let said = map print (word 0 ∷ word 1 ∷ word 2 ∷ word 3 ∷ word 4 ∷ []) in
      elim (activate (word 0) (word 1) (word 2) (word 3) (nonzero (word 4))) [
        | none ↦ none
        | some es ↦
            some (act (said ++ (es ++ (print_lid_is_ready ∷ []))) (record c { lid = false }))
      ]

  unfoldable pub config_of_vector : Config
  config_of_vector = record {
    n_points_x = v env 1;
    n_points_y = v env 2;
    path = u8 (v env 3);
    method = u8 (v env 4);
    delay_f = u16 (v env 5);
    delay_b = u16 (v env 6);
    between_points_x = u16 (v env 7);
    between_points_y = u16 (v env 8);
    flag = u8 (v env 9);
  }

  -- From the flags for one chip to the end.
  unfoldable pub chips_turn : Controller → Controller
  unfolding emit set_frequency set_amplifier init_dac main_spi
  chips_turn c =
      let c = set_amplifier env (set_frequency env c) in
      let s = convert env.words env.outside c.scan in
      if c.ad7606_get_value
      then record c {
        ad7606_get_value = false;
        scan = emit (print (spi_word env.words env.outside s (v env 1)) ∷ []) s;
      }
      else main_spi env (init_dac env c)

  -- From the linear drive to the end.
  unfoldable pub drive_turn : Controller → Option Controller
  unfolding run_lid sweep_turn chips_turn
  drive_turn c =
      if c.lid
      then run_lid c
      else if c.ad7606_is_scanning
      then some (sweep_turn c)
      else some (chips_turn c)

  -- From the ports to the end.
  unfoldable pub ports_turn : Controller → Option Controller
  unfolding emit set_one_io_value drive_turn
  ports_turn c =
      let c : Controller =
        if c.set_io
        then act (set_io_value (v env 1) (v env 2)) (record c { set_io = false })
        else c in
      if c.set_one_io
      then elim (set_one_io_value c) [ none ↦ none | some c' ↦ drive_turn c' ]
      else drive_turn c

  -- From the move of the scanner to the end.
  unfoldable pub scanner_turn : Controller → Option Controller
  unfolding update config_of_vector ports_turn
  scanner_turn c =
      if c.move_command
      then some (record c {
        move_command = false;
        scan = move_to (u16 (v env 1)) (u16 (v env 2)) (v env 3) c.scan;
      })
      else if c.config_update
      then some (record c { config_update = false; scan = update config_of_vector c.scan })
      else if c.scan.micro_scan
      then ports_turn (record c { scan = start_scan env.words env.outside env.stops c.scan })
      else ports_turn c

  -- The approach, which is still asked for when it has not been left by a stop.
  unfoldable pub approach_turn : Controller → Option Controller
  unfolding emit
  approach_turn c =
      let numbers : List ℕ =
        v env 1 ∷ v env 2 ∷ v env 3 ∷ v env 4 ∷ v env 5 ∷ v env 6 ∷ v env 7 ∷ [] in
      let done =
        approacphm env numbers env.behind_data env.approach_rounds c.set_io (emit blue c.scan) in
      if c.convergence
      then elim done [
        | none ↦ none
        | some a ↦ some (record c {
          convergence = not (get_or a.status 0 0 == 5);
          set_io = a.set_io;
          scan = emit green a.scan;
        })
      ]
      else some c

  unfoldable pub until_stop_turn : Controller → Option Controller
  until_stop_turn c =
      if c.lid_until_stop
      then move_linear_driver_until_stop (v env 1) (v env 2) (v env 3) (v env 4) (v env 5)
          env.lid_rounds c
      else some c

  unfoldable pub turn : Controller → Option Controller
  unfolding approach_turn until_stop_turn scanner_turn
  turn c = elim (approach_turn c) [
    | none ↦ none
    | some c' ↦ elim (until_stop_turn c') [ none ↦ none | some d ↦ scanner_turn d ]
  ]
