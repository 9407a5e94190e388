-- ===== src/Microscope/Scanner.antt =====
-- spi_master/physical_devices/scanner.cpp, with the ADC AD7606 of utilities/hardcoded_functions.cpp and
-- transceiver/rx_core.cpp. What the n-th conversion reads is an argument, and so is whether
-- `STOP_ALL` is set when a line ends; the rounds of the wait for the interrupt are left out.
use pico_cpp.Common.{ℕ, zero, suc, ◌+◌, ◌*◌, List, [], ◌∷◌, ◌++◌, none, some, map}
use pico_cpp.Common.{Bool, true, false, ltb, if◌then◌else◌, nonzero, u16, u32, get_elem?, get_or}
use pico_cpp.Microscope.Board.{Event, enable, disable, active_port, set_properties, spi_read}
use pico_cpp.Microscope.Board.{
  sleep_us, sleep_ms, print, print_end, print_end_line, red, green, blue,
}
use pico_cpp.Microscope.Converters.{set_on_cap}

-- `ready` is `AD_7606_IS_READY_TO_READ`.
pub record Adc : Type 0 where
  pub ready : Bool
  pub z_state : Bool
  pub ad7606_value : ℕ
  pub spi_buf : List ℕ

-- The interrupt of the converter, which reads eight words. `serialPrintBuffer` also prints the time.
unfoldable pub com_receive_isr : List ℕ → Adc → Adc × List Event
unfolding active_port
com_receive_isr words adc =
    let read = record adc { spi_buf = words } in
    let reading : List Event = active_port 0 ++ (set_properties 16 1 0 ++ (spi_read 8 ∷ [])) in
    if adc.ready
    then (adc, [])
    else if adc.z_state
    then (
      record read { ad7606_value = get_or words 0 0; z_state = false },
      reading ++ map print words,
    )
    else (record read { ready = true }, reading)

unfoldable pub get_result_from_adc : Adc → Adc × List Event
get_result_from_adc adc = (record adc { ready = false }, disable 7 ∷ sleep_us 10 ∷ enable 7 ∷ [])

-- The reading of a converter whose `z_state` is clear: the interrupt then ends the wait. With it set the
-- interrupt does not set `ready`, and the source waits for ever; `ask_z` alone sets it, and its loop
-- waits until it is clear before anything else is read.
unfoldable pub get_values_from_adc : List ℕ → Adc → Adc × List Event
unfolding get_result_from_adc com_receive_isr
get_values_from_adc words adc =
    let started = get_result_from_adc adc in
    let done = com_receive_isr words started.0 in (done.0, started.1 ++ done.1)

pub record Config : Type 0 where
  pub n_points_x : ℕ
  pub n_points_y : ℕ
  pub path : ℕ
  pub method : ℕ
  pub delay_f : ℕ
  pub delay_b : ℕ
  pub between_points_x : ℕ
  pub between_points_y : ℕ
  pub flag : ℕ

-- The scanner, with the globals that it uses and what has been done, in its order.
pub record Scan : Type 0 where
  pub pos_x : ℕ
  pub pos_y : ℕ
  pub prev_x : ℕ
  pub prev_y : ℕ
  pub conf : Config
  pub vector_z : List ℕ
  pub other_info : List ℕ
  pub adc : Adc
  pub conversions : ℕ
  pub stop_all : Bool
  pub micro_scan : Bool
  pub events : List Event

unfoldable pub emit : List Event → Scan → Scan
emit es s = record s { events = s.events ++ es }

-- The position is changed, set at the converter, and waited for.
unfoldable pub set_x : ℕ → ℕ → Scan → Scan
unfolding emit
set_x delay x s = emit (set_on_cap 1 x ++ (sleep_us delay ∷ [])) (record s { pos_x = x })

unfoldable pub set_y : ℕ → ℕ → Scan → Scan
unfolding emit
set_y delay y s = emit (set_on_cap 2 y ++ (sleep_us delay ∷ [])) (record s { pos_y = y })

unfoldable pub increase_x : ℕ → Scan → Scan
unfolding set_x
increase_x delay s = set_x delay (u16 (s.pos_x + 1)) s

unfoldable pub decrease_x : ℕ → Scan → Scan
unfolding set_x
decrease_x delay s = set_x delay (u16 (s.pos_x + 65535)) s

unfoldable pub increase_y : ℕ → Scan → Scan
unfolding set_y
increase_y delay s = set_y delay (u16 (s.pos_y + 1)) s

unfoldable pub decrease_y : ℕ → Scan → Scan
unfolding set_y
decrease_y delay s = set_y delay (u16 (s.pos_y + 65535)) s

unfoldable pub times : ℕ → (Scan → Scan) → Scan → Scan
times zero step s = s
times (suc n) step s = times n step (step s)

-- The four loops of `move_to`, with fuel.
unfoldable pub up_x : ℕ → ℕ → ℕ → Scan → Scan
up_x zero x delay s = s
up_x (suc fuel) x delay s = elim (ltb s.pos_x x) [
  | true ↦ up_x fuel x delay (increase_x delay s)
  | false ↦ s
]

unfoldable pub down_x : ℕ → ℕ → ℕ → Scan → Scan
down_x zero x delay s = s
down_x (suc fuel) x delay s = elim (ltb x s.pos_x) [
  | true ↦ down_x fuel x delay (decrease_x delay s)
  | false ↦ s
]

unfoldable pub up_y : ℕ → ℕ → ℕ → Scan → Scan
up_y zero y delay s = s
up_y (suc fuel) y delay s = elim (ltb s.pos_y y) [
  | true ↦ up_y fuel y delay (increase_y delay s)
  | false ↦ s
]

unfoldable pub down_y : ℕ → ℕ → ℕ → Scan → Scan
down_y zero y delay s = s
down_y (suc fuel) y delay s = elim (ltb y s.pos_y) [
  | true ↦ down_y fuel y delay (decrease_y delay s)
  | false ↦ s
]

abbrev pub move_fuel : ℕ
move_fuel = 65536

unfoldable pub move_to : ℕ → ℕ → ℕ → Scan → Scan
unfolding emit
move_to x y delay s =
    let s = up_x move_fuel x delay s in
    let s = down_x move_fuel x delay s in
    let s = up_y move_fuel y delay s in
    let s = down_y move_fuel y delay s in emit (print_end ∷ []) s

unfoldable pub stop_scan : Scan → Scan
unfolding move_to
stop_scan s = move_to s.prev_x s.prev_y 10 s

unfoldable pub update : Config → Scan → Scan
update config s = record s { conf = config }

-- What a line prints: the readings, each with its other one if there are such.
unfoldable pub line_info : Bool → List ℕ → List ℕ → List Event
line_info both [] others = []
line_info both (z ∷ zs) others =
    print z ∷ (if both then print (get_or others 0 0) ∷ [] else [])
    ++ line_info both zs (elim others [ [] ↦ [] | other ∷ rest ↦ rest ])

unfoldable pub send_line : Scan → Scan
unfolding emit line_info
send_line s =
    let info = line_info (nonzero s.conf.flag) s.vector_z s.other_info in
    emit (info ++ (print_end_line ∷ [])) (record s { vector_z = []; other_info = [] })

unfoldable pub finish_scan : Scan → Scan
unfolding emit stop_scan
finish_scan s =
    let s = record (emit blue s) { stop_all = false } in
    emit green (record (stop_scan s) { micro_scan = false })

-- `words` is what each conversion reads, `outside` the memory behind `spiBuf` by its index.
module _ (words : ℕ → List ℕ) (outside : ℕ → ℕ) where
  unfoldable pub convert : Scan → Scan
  unfolding emit
  convert s =
      let done = get_values_from_adc (words s.conversions) s.adc in
      emit done.1 (record s { adc = done.0; conversions = s.conversions + 1 })

  -- `spiBuf[i]`
  unfoldable pub spi_word : Scan → ℕ → ℕ
  spi_word s i = elim (get_elem? s.adc.spi_buf i) [ none ↦ outside i | some word ↦ word ]

  unfoldable pub keep_reading : Scan → Scan
  unfolding spi_word
  keep_reading s = record s {
    vector_z = s.vector_z ++ (spi_word s 0 ∷ []);
    other_info =
        if nonzero s.conf.flag then s.other_info ++ (spi_word s s.conf.flag ∷ []) else s.other_info;
  }

  unfoldable pub scan_point : Scan → Scan
  unfolding times emit convert keep_reading
  scan_point s =
      let s = times s.conf.between_points_x (increase_x s.conf.delay_f) s in
      let s = emit (sleep_ms 50 ∷ []) s in keep_reading (convert (convert s))

  unfoldable pub scan_line : Scan → Scan
  unfolding times scan_point send_line
  scan_line s =
      let s = times s.conf.n_points_x scan_point s in
      let back = u32 (s.conf.between_points_x * s.conf.n_points_x) in
      send_line (times back (decrease_x s.conf.delay_b) s)

  -- The lines that are left, from line `i`; `stops` says whether `STOP_ALL` is set at the end of it.
  unfoldable pub scan_lines : (ℕ → Bool) → ℕ → ℕ → Scan → Scan
  unfolding scan_line finish_scan times
  scan_lines stops zero i s = finish_scan s
  scan_lines stops (suc n) i s =
      let s = scan_line s in
      elim (stops i) [
        | true ↦ finish_scan s
        | false ↦
            scan_lines stops n (suc i) (times s.conf.between_points_y (increase_y s.conf.delay_f) s)
      ]

  -- `start_scan(point)`
  unfoldable pub start_scan_at : (ℕ → Bool) → ℕ → ℕ → Scan → Scan
  unfolding emit move_to scan_lines
  start_scan_at stops x y s =
      let s = record (emit red s) { prev_x = s.pos_x; prev_y = s.pos_y } in
      let s = emit (print s.conf.delay_b ∷ print s.conf.delay_f ∷ []) s in
      let s = move_to x y 10 s in scan_lines stops s.conf.n_points_y 0 s

  unfoldable pub start_scan : (ℕ → Bool) → Scan → Scan
  unfolding start_scan_at
  start_scan stops s = start_scan_at stops s.pos_x s.pos_y s
