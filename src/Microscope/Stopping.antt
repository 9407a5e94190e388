-- ===== src/Microscope/Stopping.antt =====
-- The command 70, `stopAll`: what the loop still does after it, how commands are used up, and what
-- happens when it comes while the drive along z waits for the converter.
use pico_cpp.Common.{ℕ, ◌≡◌, ◌∙◌, refl, ap, arith, List, [], ◌∷◌, ◌++◌, Option, none, some, All}
use pico_cpp.Common.{true, false, map, u8, u16, ◌==◌, if◌then◌else◌}
use pico_cpp.Microscope.Board.{Event, active_port, set_properties, spi_write, sleep_us, print}
use pico_cpp.Microscope.Board.{enable, disable, set_io_value}
use pico_cpp.Microscope.Converters.{initialize, write_a, write_b, set_freq, set_gain}
use pico_cpp.Microscope.Ad5664.{set_channel, update_channel, write_input_register}
use pico_cpp.Microscope.Scanner.{Adc, com_receive_isr, get_result_from_adc, convert, emit}
use pico_cpp.Microscope.Scanner.{Scan, update, spi_word}
use pico_cpp.Microscope.Commands.{Controller, dispatch, stop_all}
use pico_cpp.Microscope.Approach.{ask_z}
use pico_cpp.Microscope.Chips.{Env, v, act}
use pico_cpp.Microscope.Loop.{turn, config_of_vector}

-- After `stopAll` a turn of the loop only selects the port and sets the format of the numbers of the
-- command: no chip is written to, nothing is moved or read, and no flag changes.
pub stopped_turn :
    (env : Env) (c : Controller)
    → turn env (stop_all c)
      ≡ some
          (act (active_port (v env 1) ++ set_properties (v env 2) (v env 3) (v env 4)) (stop_all c))
unfolding turn stop_all
stopped_turn env c = refl

-- Core 0 waits; meanwhile the converter interrupts and core 1 takes commands.
pub data Meanwhile : Controller → Controller → Type 0 where
  interrupt :
      (c : Controller) (words : List ℕ)
      → Meanwhile c
          (record c { scan = record c.scan { adc = (com_receive_isr words c.scan.adc).0 } })
  command : (c d : Controller) (k : ℕ) → dispatch k c ≡ some d → Meanwhile c d

pub data Waits (c : Controller) : Controller → Type 0 where
  here : Waits c c
  after : {d e : Controller} → Waits c d → Meanwhile d e → Waits c e

dispatch_ready :
    (k : ℕ) (c d : Controller)
    → dispatch k c ≡ some d
    → c.scan.adc.ready ≡ true
    → c.scan.adc.z_state ≡ true
    → (d.scan.adc.ready ≡ true) × (d.scan.adc.z_state ≡ true)
unfolding dispatch stop_all
dispatch_ready k c d e r z = ground arith

isr_ignored : (words : List ℕ) (adc : Adc) → adc.ready ≡ true → (com_receive_isr words adc).0 ≡ adc
unfolding com_receive_isr
isr_ignored words adc r = rw r refl

Waits-stays :
    (c d : Controller)
    → Waits c d
    → c.scan.adc.ready ≡ true
    → c.scan.adc.z_state ≡ true
    → (d.scan.adc.ready ≡ true) × (d.scan.adc.z_state ≡ true)
Waits-stays c d here r z = (r, z)
Waits-stays c d (after {d = b} w (interrupt _ words)) r z =
    let before = Waits-stays c b w r z in
    let same = isr_ignored words b.scan.adc before.0 in
    (ap (λ (a : Adc). a.ready) same ∙ before.0, ap (λ (a : Adc). a.z_state) same ∙ before.1)
Waits-stays c d (after {d = b} w (command _ _ k e)) r z =
    let before = Waits-stays c b w r z in dispatch_ready k b d e before.0 before.1

-- While the drive along z waits for the height, the next interrupt of the converter ends the wait. But
-- when `stopAll` comes between the request and this interrupt, the flag that the loop waits for stays
-- set for ever: no interrupt and no command clears it.
pub stop_while_waiting :
    (c d : Controller) (words : List ℕ)
    → Waits (stop_all (ask_z c)) d
    → ((com_receive_isr words (ask_z c).scan.adc).0.z_state ≡ false) × (d.scan.adc.z_state ≡ true)
unfolding ask_z get_result_from_adc com_receive_isr emit stop_all
stop_while_waiting c d words w = (refl, (Waits-stays (stop_all (ask_z c)) d w refl refl).1)

-- A command, and the turn behind it, with the kept frequency as it was before.
unfoldable pub served : Env → Controller → ℕ → Option Controller
unfolding dispatch turn
served env c k = elim (dispatch k c) [
  | none ↦ none
  | some d ↦ elim (turn env d) [
    | none ↦ none
    | some e ↦ some (record e { current_freq = c.current_freq })
  ]
]

module _ (env : Env) where
  -- The port is selected and the format set.
  abbrev pub select : Scan → Scan
  select = emit (active_port (v env 1) ++ set_properties (v env 2) (v env 3) (v env 4))

  abbrev pub after_select : List Event → Scan → Scan
  after_select es s = emit es (select s)

  abbrev pub before_select : List Event → Scan → Scan
  before_select es s = select (emit es s)

  -- A conversion, and the words of it that are printed.
  abbrev pub shows : List ℕ → Scan → Scan
  shows channels s =
      let s = convert env.words env.outside s in
      emit (map (λ i. print (spi_word env.words env.outside s i)) channels) s

  -- What each command is for.
  abbrev pub purposes : List (ℕ × (Scan → Scan))
  purposes =
      (1, after_select (spi_write (map (λ i. u8 (v env i)) (5 ∷ 6 ∷ 7 ∷ 8 ∷ 9 ∷ 10 ∷ [])) ∷ []))
      ∷ (5, after_select (spi_write (u8 (v env 5) ∷ []) ∷ []))
      ∷ (11, after_select (enable 17 ∷ sleep_us 10 ∷ disable 17 ∷ []))
      ∷ (12, λ s. shows (0 ∷ 1 ∷ 2 ∷ 3 ∷ 4 ∷ 5 ∷ 6 ∷ 7 ∷ []) (select s))
      ∷ (
        21,
        after_select (
            set_channel write_input_register (u8 (v env 6)) (u16 (v env 5))
            ++ update_channel (u8 (v env 6))),
      )
      ∷ (
        22,
        after_select (
            if v env 5 == 0
            then write_a (v env 6)
            else if v env 5 == 1
            then write_b (v env 6)
            else []),
      )
      ∷ (23, before_select (initialize (v env 1)))
      ∷ (24, shows (v env 1 ∷ []))
      ∷ (30, before_select (set_freq (v env 1)))
      ∷ (40, before_select (set_gain env.beyond (v env 1) 2))
      ∷ (55, update (config_of_vector env))
      ∷ (60, before_select (set_io_value (v env 1) (v env 2)))
      ∷ []

  -- From a controller that has been stopped, each of the commands 1, 5, 11, 12, 21, 22, 23, 24, 30, 40,
  -- 55 and 60 is used up by the next turn of the loop: the turn does what the command is for, in its
  -- place before or behind the selection of the port (24 and 55 select none), and nothing else; every
  -- flag, and all that the frequency scan keeps but for the frequency that was set last, is as it was
  -- before the command.
  pub used_up :
      (c : Controller)
      → All
          (λ (q : ℕ × (Scan → Scan)).
            served env (stop_all c) q.0
            ≡ some (record (stop_all c) { scan = q.1 (stop_all c).scan }))
          purposes
  unfolding served stop_all convert
  used_up c = (
    refl,
    (refl, (refl, (refl, (refl, (refl, (refl, (refl, (refl, (refl, (refl, (refl, tt))))))))))),
  )
