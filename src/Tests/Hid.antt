-- ===== src/Tests/Hid.antt =====
-- The human interface devices on concrete inputs.
use pico_cpp.Common.{ℕ, ◌+◌, ◌*◌, ◌/◌, ◌≡◌, refl, arith, List, [], ◌∷◌, some, none}
use pico_cpp.Common.{true, false, replicate, u32, sub32, min, ◌==◌, get_elem?}
use pico_cpp.Hid.Device.{HidCodes, Device, Answers, powered_on, hid_task}
use pico_cpp.Hid.Device.{
  tud_hid_report_complete_cb, send_keyboard, send_hid_report, send_mouse, send_consumer,
  send_gamepad,
}
use mathlib.Core.Path.{subst}
use pico_cpp.Common.{zero, suc}
use pico_cpp.Hid.Device.{key_down, volume_down, pad_down}
use pico_cpp.Hid.Releases.{Documented, Sound}
use pico_cpp.Hid.Safety.{starts, polls, completes, device-Sound}
use pico_cpp.Hid.Round.{chain, press_round, mouse_moves, Willing, poll_all, quiet_polls}
use pico_cpp.Hid.Polling.{hid_task_catches_up}
use pico_cpp.Hid.Polling
use pico_cpp.Hid.Host.{Tusb, Host, KeyboardReport, MouseReport, ReportInfo, use_info}
use pico_cpp.Hid.Host.{process_kbd_report, tuh_hid_mount_cb, tuh_hid_report_received_cb}
use pico_cpp.Hid.Host.{find_key_in_report}
use pico_cpp.Hid.Keys.{Own, typed, presses, process_all, keyboard_presses}
use pico_cpp.Hid.Faults.{unknown_key_fault}
use pico_cpp.Hid.Mouse.{move_all, button_lines, with_buttons, mouse_lines}
use pico_cpp.Hid.Dispatch.{Protocols, mounted_report}

abbrev codes : HidCodes
codes = record {
  hid_key_a = 4;
  consumer_volume_decrement = 234;
  gamepad_hat_up = 1;
  gamepad_hat_centered = 0;
  gamepad_button_a = 1;
  keyboard_led_capslock = 2;
  hid_report_type_output = 2;
}

codes-Documented : Documented codes
codes-Documented = record { key_a = omega arith; volume = omega arith; button_a = omega arith }

abbrev pressed : Answers
pressed = record { millis = 25; button = 1; ready = true; suspended = false }

abbrev polled : Device
polled = tud_hid_report_complete_cb codes (hid_task codes powered_on pressed) pressed (1 ∷ [])

device-Sound_example : Sound polled
device-Sound_example = device-Sound codes codes-Documented polled (
    completes (hid_task codes powered_on pressed) pressed (1 ∷ [])
      (polls powered_on pressed starts))

pressed-Willing : Willing true pressed
pressed-Willing = record { takes = refl; button_is = refl }

press_round_example :
    chain codes
      (pressed ∷ pressed ∷ pressed ∷ pressed ∷ [])
      powered_on
      (hid_task codes powered_on pressed)
    ≡ record powered_on {
      task_start_ms = u32 (0 + 10);
      has_keyboard_key = true;
      has_consumer_key = true;
      has_gamepad_key = true;
      sent = pad_down codes ∷ volume_down codes ∷ mouse_moves ∷ key_down codes ∷ [];
    }
press_round_example =
    press_round codes powered_on pressed pressed pressed pressed (pressed ∷ []) pressed-Willing
      pressed-Willing pressed-Willing pressed-Willing refl refl

hid_task_catches_up_example :
    (Polling.polls codes 5 powered_on pressed).task_start_ms
    ≡ u32 (0 + 10 * min 5 (sub32 25 0 / 10))
hid_task_catches_up_example =
    hid_task_catches_up codes 5 powered_on pressed (omega arith) (omega arith)

abbrev up : Answers
up = record { millis = 100; button = 0; ready = true; suspended = false }

-- A press, then a release during which the button is down again for the volume key's report: the
-- volume key stays down from then on.
abbrev bounced : Device
bounced =
    let after_press =
      completed (completed (completed (hid_task codes powered_on pressed) pressed 1) pressed 2)
        pressed 3 in
    let after_release = completed (completed (hid_task codes after_press up) up 1) pressed 2 in
    completed after_release up 3
  where
    completed : Device → Answers → ℕ → Device
    completed d a id = tud_hid_report_complete_cb codes d a (id ∷ [])

bounced_holds : (bounced.has_keyboard_key ≡ false) × (bounced.has_consumer_key ≡ true)
unfolding hid_task tud_hid_report_complete_cb send_hid_report send_keyboard send_mouse send_consumer
    send_gamepad
bounced_holds = (refl, refl)

quiet_polls_example : (poll_all codes bounced (up ∷ up ∷ [])).sent ≡ bounced.sent
quiet_polls_example = quiet_polls codes (up ∷ up ∷ []) bounced (refl, (refl, tt)) bounced_holds.0

abbrev no_keys : KeyboardReport
no_keys = record { modifier = 0; reserved = 0; keycode = replicate 6 0 }

abbrev keyboard_info : ReportInfo
keyboard_info = record { report_id = 1; usage = 6; usage_page = 1 }

abbrev mouse_info : ReportInfo
mouse_info = record { report_id = 2; usage = 2; usage_page = 1 }

-- A table in which key 3 is the space.
abbrev tusb : Tusb
tusb = record {
  protocol_none = 0;
  protocol_keyboard = 1;
  protocol_mouse = 2;
  modifier_leftshift = 2;
  modifier_rightshift = 32;
  button_left = 1;
  button_middle = 4;
  button_right = 2;
  usage_page_desktop = 1;
  usage_keyboard = 6;
  usage_mouse = 2;
  keycode2ascii = (0, 0) ∷ (0, 0) ∷ (97, 65) ∷ (32, 32) ∷ [];
  parse_report_descriptor = λ infos most desc. (2, keyboard_info ∷ mouse_info ∷ []);
  as_keyboard = λ bytes. no_keys;
  as_mouse = λ bytes. record { buttons = 0; x = 0; y = 0; wheel = 0 };
}

abbrev host : Host
host = record {
  prev_keyboard = no_keys;
  prev_mouse = record { buttons = 0; x = 0; y = 0; wheel = 0 };
  hid_info = record { report_count = 0; report_info = [] } ∷ [];
  printed = [];
}

some_row : (a b : ℕ × ℕ) → some a ≡ some b → a ≡ b
some_row a b h = cc h

space_row :
    (key : ℕ) (row : ℕ × ℕ)
    → get_elem? tusb.keycode2ascii key ≡ some row
    → ((row.0 == 32) ≡ (key == 3)) × ((row.1 == 32) ≡ (key == 3))
space_row zero row h =
    subst (λ r. ((r.0 == 32) ≡ false) × ((r.1 == 32) ≡ false)) (some_row (0, 0) row h) (refl, refl)
space_row (suc zero) row h =
    subst (λ r. ((r.0 == 32) ≡ false) × ((r.1 == 32) ≡ false)) (some_row (0, 0) row h) (refl, refl)
space_row (suc (suc zero)) row h =
    subst (λ r. ((r.0 == 32) ≡ false) × ((r.1 == 32) ≡ false)) (some_row (97, 65) row h)
      (refl, refl)
space_row (suc (suc (suc zero))) row h =
    subst (λ r. ((r.0 == 32) ≡ true) × ((r.1 == 32) ≡ true)) (some_row (32, 32) row h) (refl, refl)
space_row (suc (suc (suc (suc key)))) row h = beyond h
  where
    beyond : {A : Type 0} → none ≡ some row → A
    beyond e = absurd (cc e)

space-Own : Own tusb 3 32
space-Own = record {
  is_key = omega arith;
  no_newline = omega arith;
  plain = λ key row h. (space_row key row h).0;
  shifted = λ key row h. (space_row key row h).1;
}

abbrev report : List ℕ → KeyboardReport
report keys = record { modifier = 0; reserved = 0; keycode = keys }

-- The space is pressed, held while another key is pressed, let go and pressed again.
abbrev typing : List KeyboardReport
typing = report (3 ∷ []) ∷ report (3 ∷ 2 ∷ []) ∷ report (2 ∷ []) ∷ report (2 ∷ 3 ∷ []) ∷ []

keyboard_presses_example :
    (last : Host) × (process_all tusb host typing ≡ some last)
    × (typed 32 last.printed ≡ typed 32 host.printed + presses 3 host.prev_keyboard.keycode typing)
keyboard_presses_example = keyboard_presses tusb 3 32 space-Own host typing (
  (omega arith, tt),
  ((omega arith, (omega arith, tt)), ((omega arith, tt), ((omega arith, (omega arith, tt)), tt))),
)

unknown_key_fault_example : process_kbd_report tusb host (report (3 ∷ 135 ∷ [])) ≡ none
unfolding find_key_in_report
unknown_key_fault_example =
    unknown_key_fault tusb host (report (3 ∷ 135 ∷ [])) (3 ∷ []) [] 135 refl (omega arith) refl
      (omega arith)

abbrev clicks : List MouseReport
clicks =
    record { buttons = 1; x = 0; y = 0; wheel = 0 }
    ∷ record { buttons = 1; x = 5; y = 0; wheel = 0 }
    ∷ record { buttons = 0; x = 5; y = 0; wheel = 0 }
    ∷ []

mouse_lines_example :
    button_lines (move_all tusb host clicks).printed
    ≡ button_lines host.printed + with_buttons clicks
mouse_lines_example =
    mouse_lines tusb host clicks refl (omega arith, (omega arith, (omega arith, tt)))

tusb-Protocols : Protocols tusb
tusb-Protocols = record { none_is = refl; keyboard_is = refl; mouse_is = refl }

mounted_report_example :
    (m : Host) × (tuh_hid_mount_cb tusb host 1 0 0 [] true ≡ some m)
    × (tuh_hid_report_received_cb tusb m 0 0 (2 ∷ 7 ∷ []) true
        ≡ use_info tusb m (some mouse_info) (7 ∷ []))
mounted_report_example =
    mounted_report tusb tusb-Protocols host 1 0 [] (7 ∷ [])
      (record { report_count = 0; report_info = [] }) (keyboard_info ∷ []) [] mouse_info 2 2 refl
      refl (omega arith, tt) refl (omega arith) (omega arith)
