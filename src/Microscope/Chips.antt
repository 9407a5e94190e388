-- ===== src/Microscope/Chips.antt =====
-- spi_master/loop/main_core.cpp: what a turn of the loop meets, and its parts for one chip each.
use pico_cpp.Common.{ℕ, List, [], ◌∷◌, ◌++◌, map, Bool, true, false}
use pico_cpp.Common.{◌==◌, ◌||◌, if◌then◌else◌, u8, u16}
use pico_cpp.Common.{get_or}
use pico_cpp.Microscope.Board.{Event, spi_write, sleep_us, print, enable, disable}
use pico_cpp.Microscope.Board.{active_port, set_properties}
use pico_cpp.Microscope.Converters.{initialize, write_a, write_b, set_freq, set_gain}
use pico_cpp.Microscope.Ad5664.{set_channel, update_channel, write_input_register}
use pico_cpp.Microscope.Scanner.{emit, convert, spi_word}
use pico_cpp.Microscope.Commands.{Controller}

-- What core 1 has set when a round of the approach begins: whether `CONVERGENCE` and `CONVERGENCE_CONFIG_UPDATE` are, and the numbers.
pub record Round : Type 0 where
  pub converging : Bool
  pub config_update : Bool
  pub numbers : List ℕ

-- What a turn meets: the numbers of the command, the conversions, the memory behind three arrays,
-- `STOP_ALL` at the ends of the lines, and the rounds of the two loops that core 1 ends.
pub record Env : Type 0 where
  pub vector : List ℕ
  pub words : ℕ → List ℕ
  pub outside : ℕ → ℕ
  pub beyond : List ℕ
  pub behind_data : ℕ
  pub stops : ℕ → Bool
  pub approach_rounds : List Round
  pub lid_rounds : List (List ℕ)

abbrev pub act : List Event → Controller → Controller
act es c = record c { scan = emit es c.scan }

module _ (env : Env) where
  abbrev pub v : ℕ → ℕ
  v i = get_or env.vector i 0

  -- The calls for one chip each, in the order of the loop.
  unfoldable pub set_frequency : Controller → Controller
  unfolding emit
  set_frequency c =
      if c.ad9833_set_freq
      then act (set_freq (v 1)) (record c { ad9833_set_freq = false; current_freq = u16 (v 1) })
      else c

  unfoldable pub set_amplifier : Controller → Controller
  unfolding emit
  set_amplifier c =
      if c.ad8400_set_gain
      then act (set_gain env.beyond (v 1) 2) (record c { ad8400_set_gain = false })
      else c

  unfoldable pub init_dac : Controller → Controller
  unfolding emit
  init_dac c =
      if c.dac8563_init then act (initialize (v 1)) (record c { dac8563_init = false }) else c

  unfoldable pub set_voltage : Controller → Controller
  unfolding emit
  set_voltage c =
      let es : List Event =
        if v 5 == 0 then write_a (v 6) else if v 5 == 1 then write_b (v 6) else [] in
      if c.dac8563_set_voltage then act es (record c { dac8563_set_voltage = false }) else c

  unfoldable pub set_ad5664 : Controller → Controller
  unfolding emit
  set_ad5664 c =
      if c.ad5664
      then act
          (set_channel write_input_register (u8 (v 6)) (u16 (v 5)) ++ update_channel (u8 (v 6)))
          (record c { ad5664 = false })
      else c

  unfoldable pub send_bytes : Controller → Controller
  unfolding emit
  send_bytes c =
      let c : Controller =
        if c.ad9833_sender
        then act
            (spi_write (u8 (v 5) ∷ u8 (v 6) ∷ u8 (v 7) ∷ u8 (v 8) ∷ u8 (v 9) ∷ u8 (v 10) ∷ []) ∷ [])
            (record c { ad9833_sender = false })
        else c in
      if c.ad8400_sender
      then act (spi_write (u8 (v 5) ∷ []) ∷ []) (record c { ad8400_sender = false })
      else c

  unfoldable pub switch_adc : Controller → Controller
  unfolding emit
  switch_adc c =
      let c : Controller =
        if c.ad7606_enable_disable
        then record c {
          ad7606_enable_disable = false;
          ad7606_read_forever =
              if v 5 == 1 then false else if v 5 == 0 then true else c.ad7606_read_forever;
        }
        else c in
      if c.ad7606_reset
      then act (enable 17 ∷ sleep_us 10 ∷ disable 17 ∷ []) (record c { ad7606_reset = false })
      else c

  unfoldable pub read_adc : Controller → Controller
  unfolding emit
  read_adc c =
      let quiet = record c { ad7606_read = false } in
      let s = convert env.words env.outside c.scan in
      let said =
        map (λ i. print (spi_word env.words env.outside s i))
          (0 ∷ 1 ∷ 2 ∷ 3 ∷ 4 ∷ 5 ∷ 6 ∷ 7 ∷ []) in
      if c.ad7606_read || c.ad7606_read_forever
      then if c.scan.adc.ready then record quiet { scan = emit said s } else quiet
      else c

  -- From the selection of the port to the end of the turn.
  unfoldable pub main_spi : Controller → Controller
  unfolding emit active_port set_voltage set_ad5664 send_bytes switch_adc read_adc
  main_spi c =
      let c = act (active_port (v 1) ++ set_properties (v 2) (v 3) (v 4)) c in
      read_adc (switch_adc (send_bytes (set_ad5664 (set_voltage c))))
