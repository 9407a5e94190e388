-- ===== src/Microscope/Approach.antt =====
-- spi_master/utilities: `approacphm`, which brings the probe to the sample, and
-- `moveLinearDriverUntilStop`. Each round of a loop has an entry in a list, with what core 1 has set and
-- sent when it begins; the list ends where the loop is left at the latest. `none` stands for what
-- `activate` leaves out.
use pico_cpp.Common.{
  ℕ, zero, suc, ◌+◌, ◌-◌, ◌^◌, List, [], ◌∷◌, ◌++◌, Option, none, some, Bool, true, false,
}
use pico_cpp.Common.{not, ◌==◌, ◌&&◌, ◌||◌, leb, if◌then◌else◌, nonzero, get_or}
use pico_cpp.Microscope.Board.{Event, enable, disable, print, print_code75, print_end, sleep_ms}
use pico_cpp.Microscope.Board.{set_io_value, io3_1}
use pico_cpp.Microscope.Converters.{write_a}
use pico_cpp.Microscope.Scanner.{
  Scan, emit, convert, spi_word, get_result_from_adc, com_receive_isr,
}
use pico_cpp.Microscope.Driver.{activate}
use pico_cpp.Microscope.Commands.{Controller}
use pico_cpp.Microscope.Chips.{Env, Round, act}

abbrev pub is_negative : ℕ → Bool
is_negative n = leb (2 ^ 31) n

-- `std::abs` of an `int32_t`.
abbrev pub abs_int : ℕ → ℕ
abs_int n = if is_negative n then 2 ^ 32 - n else n

pub record Approach : Type 0 where
  pub set_point : ℕ
  pub gate_z_max : ℕ
  pub gate_z_min : ℕ
  pub nsteps : ℕ
  pub intdelay : ℕ
  pub gain : ℕ
  pub speed : ℕ
  pub scannerdecay : ℕ
  pub z : ℕ
  pub signal : ℕ
  pub status : List ℕ
  pub set_io : Bool
  pub scan : Scan

pub data Outcome : Type 0 where
  again over : Approach → Outcome

abbrev pub did : List Event → Approach → Approach
did es a = record a { scan = emit es a.scan }

unfoldable pub configure : Round → Approach → Approach
configure r a =
    let number = λ (i : ℕ). get_or r.numbers i 0 in
    if r.config_update
    then record a {
      set_point = number 1;
      gate_z_max = number 2;
      gate_z_min = number 3;
      nsteps = number 4;
      intdelay = number 5;
      gain = number 6;
      speed = number 7;
    }
    else a

abbrev pub say_status : List ℕ → List Event
say_status status =
    print_code75
    ∷ print (get_or status 0 0)
    ∷ print (get_or status 1 0)
    ∷ print (get_or status 2 0)
    ∷ []

module _ (env : Env) where
  unfoldable pub sample : Approach → Approach
  unfolding emit
  sample a = record a { scan = convert env.words env.outside a.scan }

  -- The ten readings of the height, the last of which is kept, and how many are at the gate.
  unfoldable pub heights : ℕ → ℕ → Approach → Approach × ℕ
  unfolding sample emit
  heights zero k a = (a, k)
  heights (suc n) k a =
      let a = sample a in
      let z = spi_word env.words env.outside a.scan 0 in
      heights n (if leb z a.gate_z_max then k + 1 else k)
        (did (sleep_ms 10 ∷ []) (record a { z = z }))

  unfoldable pub look : Approach → Approach
  unfolding heights
  look a =
      let counted = heights 10 0 a in
      let b = counted.0 in
      if leb a.z a.gate_z_max
      then if leb 3 counted.1 then record b { status = 3 ∷ b.z ∷ b.signal ∷ [] } else b
      else a

  -- The end of a round: the drive along z is moved.
  unfoldable pub step : Approach → Option Outcome
  unfolding emit activate
  step a =
      let positive : Bool = nonzero a.nsteps && not (is_negative a.nsteps) in
      elim (activate 99 5000 750 (abs_int a.nsteps) positive) [
        | none ↦ none
        | some es ↦
            some
              (again (did (say_status a.status ++ (enable io3_1 ∷ es ++ (disable io3_1 ∷ []))) a))
      ]

  -- From the reading of the height on.
  unfoldable pub measured_step : Approach → Option Outcome
  unfolding sample look step emit
  measured_step a =
      let b = sample (sample a) in
      let z = spi_word env.words env.outside b.scan 0 in
      let signal = spi_word env.words env.outside b.scan 1 in
      let b = record b { z = z; signal = signal } in
      if is_negative a.nsteps
      then step (did (disable io3_1 ∷ sleep_ms a.scannerdecay ∷ []) a)
      else if leb z b.gate_z_min
      then some (over (record b { status = 2 ∷ z ∷ signal ∷ [] }))
      else step (look b)

  unfoldable pub settled : Approach → Approach
  unfolding emit
  settled a =
      did (write_a a.set_point ++ (set_io_value 2 a.gain ++ (sleep_ms a.intdelay ∷ [])))
        (record a { set_io = false })

  -- The round of `a`, with `b` as `a` configured anew.
  unfoldable pub begin_round : Bool → Approach → Approach → Option Outcome
  unfolding settled measured_step emit
  begin_round converging b a =
      if not converging
      then some (over (did (disable io3_1 ∷ []) (record a { status = 5 ∷ a.z ∷ a.signal ∷ [] })))
      else measured_step (settled b)

  unfoldable pub none_yet : Approach → Approach
  none_yet a = record a { status = 30 ∷ get_or a.status 1 0 ∷ get_or a.status 2 0 ∷ [] }

  unfoldable pub round : Round → Approach → Option Outcome
  unfolding configure begin_round none_yet
  round r a = begin_round r.converging (configure r (none_yet a)) (none_yet a)

  unfoldable pub approach_loop : List Round → Approach → Option Approach
  unfolding round
  approach_loop [] a = some a
  approach_loop (r ∷ rounds) a = elim (round r a) [
    | none ↦ none
    | some (over b) ↦ some b
    | some (again b) ↦ approach_loop rounds b
  ]

  -- `data` has seven numbers of the nine that are read: `behind_data` is the eighth. `set_io_value` also
  -- clears the flag `SET_IO_VALUE`.
  unfoldable pub approacphm : List ℕ → ℕ → List Round → Bool → Scan → Option Approach
  unfolding sample approach_loop emit
  approacphm numbers behind_data rounds set_io s =
      let number = λ (i : ℕ). get_or numbers i 0 in
      let a : Approach = record {
        set_point = number 0;
        gate_z_max = number 1;
        gate_z_min = number 2;
        nsteps = number 3;
        intdelay = number 4;
        gain = number 5;
        speed = number 6;
        scannerdecay = behind_data;
        z = 0;
        signal = 0;
        status = [];
        set_io = set_io;
        scan = emit (write_a (number 0)) s;
      } in
      let b = sample (sample a) in
      let signal = spi_word env.words env.outside b.scan 0 in
      let z = spi_word env.words env.outside b.scan 1 in
      let ready = record b { z = z; signal = signal; status = 30 ∷ z ∷ signal ∷ [] } in
      elim (approach_loop rounds ready) [
        | none ↦ none
        | some e ↦ some (did (say_status e.status ++ (sleep_ms 100 ∷ print_end ∷ [])) e)
      ]

-- The height is asked for: the flag is set and a conversion is started.
unfoldable pub ask_z : Controller → Controller
unfolding emit get_result_from_adc
ask_z c =
    let started = get_result_from_adc (record c.scan.adc { z_state = true }) in
    record c { scan = emit started.1 (record c.scan { adc = started.0 }) }

-- A round of the loops of `moveLinearDriverUntilStop`; `words` is what the interrupt reads for the
-- drive along z.
unfoldable pub driven_round : ℕ → ℕ → ℕ → ℕ → ℕ → List ℕ → Controller → Option Controller
unfolding ask_z emit activate com_receive_isr
driven_round lid_name f p n dir words c =
    let asked = ask_z c in
    let read = com_receive_isr words asked.scan.adc in
    let c' : Controller =
      if lid_name == 99
      then act (read.1 ++ (print read.0.ad7606_value ∷ []))
          (record asked { scan = record asked.scan { adc = read.0 } })
      else c in
    elim (activate lid_name f p n (nonzero dir)) [ none ↦ none | some es ↦ some (act es c') ]

-- One entry for each time that `LID_UNTIL_STOP` is found set; then it has been cleared.
unfoldable pub move_linear_driver_until_stop :
    ℕ → ℕ → ℕ → ℕ → ℕ → List (List ℕ) → Controller → Option Controller
unfolding driven_round
move_linear_driver_until_stop lid_name f p n dir [] c =
    if lid_name == 90 || lid_name == 95 || lid_name == 99
    then some (record c { lid_until_stop = false })
    else some c
move_linear_driver_until_stop lid_name f p n dir (words ∷ rest) c =
    if lid_name == 90 || lid_name == 95 || lid_name == 99
    then elim (driven_round lid_name f p n dir words c) [
      | none ↦ none
      | some c' ↦ move_linear_driver_until_stop lid_name f p n dir rest c'
    ]
    else some c
