-- ===== src/Hid/Device.antt =====
-- usb/device/dev_hid_composite/main.c: a composite device whose one button presses a key, a volume
-- key and a game pad, one report for each profile. The answers of TinyUSB and of the board are
-- arguments; what is called of them is kept in `sent`, the latest first.
use pico_cpp.Common.{ℕ, ◌+◌, List, [], ◌∷◌, Option, none, some, Bool, true, false, not, ltb}
use pico_cpp.Common.{if◌then◌else◌, ◌==◌, ◌&&◌, nonzero, u8, u32, sub32, bit_and, get_or}

-- The constants of TinyUSB that the program uses, with their names there.
pub record HidCodes : Type 0 where
  pub hid_key_a : ℕ
  pub consumer_volume_decrement : ℕ
  pub gamepad_hat_up : ℕ
  pub gamepad_hat_centered : ℕ
  pub gamepad_button_a : ℕ
  pub keyboard_led_capslock : ℕ
  pub hid_report_type_output : ℕ

-- usb_descriptors.h
abbrev pub report_id_keyboard : ℕ
report_id_keyboard = 1

abbrev pub report_id_mouse : ℕ
report_id_mouse = 2

abbrev pub report_id_consumer_control : ℕ
report_id_consumer_control = 3

abbrev pub report_id_gamepad : ℕ
report_id_gamepad = 4

abbrev pub report_id_count : ℕ
report_id_count = 5

abbrev pub blink_not_mounted : ℕ
blink_not_mounted = 250

abbrev pub blink_mounted : ℕ
blink_mounted = 1000

abbrev pub blink_suspended : ℕ
blink_suspended = 2500

-- `hid_gamepad_report_t`: the six axes are 0 in every report of this program.
pub record Gamepad : Type 0 where
  pub axes : List ℕ
  pub hat : ℕ
  pub buttons : ℕ

pub data Call : Type 0 where
  keyboard_report : ℕ → ℕ → Option (List ℕ) → Call
  mouse_report : ℕ → ℕ → ℕ → ℕ → ℕ → ℕ → Call
  consumer_report : ℕ → ℕ → Call
  gamepad_report : ℕ → Gamepad → Call
  remote_wakeup : Call
  led_write : Bool → Call

-- The static variables, those of the functions too; the two called `start_ms` are told apart.
pub record Device : Type 0 where
  pub blink_interval_ms : ℕ
  pub has_keyboard_key : Bool
  pub has_consumer_key : Bool
  pub has_gamepad_key : Bool
  pub task_start_ms : ℕ
  pub blink_start_ms : ℕ
  pub led_state : Bool
  pub sent : List Call

abbrev pub powered_on : Device
powered_on = record {
  blink_interval_ms = blink_not_mounted;
  has_keyboard_key = false;
  has_consumer_key = false;
  has_gamepad_key = false;
  task_start_ms = 0;
  blink_start_ms = 0;
  led_state = false;
  sent = [];
}

unfoldable pub tud_mount_cb : Device → Device
tud_mount_cb d = record d { blink_interval_ms = blink_mounted }

unfoldable pub tud_umount_cb : Device → Device
tud_umount_cb d = record d { blink_interval_ms = blink_not_mounted }

unfoldable pub tud_suspend_cb : Device → Device
tud_suspend_cb d = record d { blink_interval_ms = blink_suspended }

unfoldable pub tud_resume_cb : Device → Device
tud_resume_cb d = record d { blink_interval_ms = blink_mounted }

abbrev pub call : Device → Call → Device
call d c = record d { sent = c ∷ d.sent }

-- The reports, down and up.
abbrev pub key_down : HidCodes → Call
key_down codes =
    keyboard_report report_id_keyboard 0 (some (codes.hid_key_a ∷ 0 ∷ 0 ∷ 0 ∷ 0 ∷ 0 ∷ []))

abbrev pub key_up : Call
key_up = keyboard_report report_id_keyboard 0 none

abbrev pub volume_down : HidCodes → Call
volume_down codes = consumer_report report_id_consumer_control codes.consumer_volume_decrement

abbrev pub volume_released : Call
volume_released = consumer_report report_id_consumer_control 0

abbrev pub pad_report : ℕ → ℕ → Call
pad_report hat buttons =
    gamepad_report report_id_gamepad
      (record { axes = 0 ∷ 0 ∷ 0 ∷ 0 ∷ 0 ∷ 0 ∷ []; hat = hat; buttons = buttons })

abbrev pub pad_down : HidCodes → Call
pad_down codes = pad_report codes.gamepad_hat_up codes.gamepad_button_a

abbrev pub pad_up : HidCodes → Call
pad_up codes = pad_report codes.gamepad_hat_centered 0

unfoldable pub send_keyboard : HidCodes → Device → ℕ → Device
send_keyboard codes d btn =
    if nonzero btn
    then record (call d (key_down codes)) { has_keyboard_key = true }
    else record (if d.has_keyboard_key then call d key_up else d) { has_keyboard_key = false }

unfoldable pub send_mouse : Device → Device
send_mouse d = let delta : ℕ = 5 in call d (mouse_report report_id_mouse 0x00 delta delta 0 0)

unfoldable pub send_consumer : HidCodes → Device → ℕ → Device
send_consumer codes d btn =
    if nonzero btn
    then record (call d (volume_down codes)) { has_consumer_key = true }
    else record (if d.has_consumer_key then call d volume_released else d) {
      has_consumer_key = false;
    }

unfoldable pub send_gamepad : HidCodes → Device → ℕ → Device
send_gamepad codes d btn =
    if nonzero btn
    then record (call d (pad_down codes)) { has_gamepad_key = true }
    else record (if d.has_gamepad_key then call d (pad_up codes) else d) { has_gamepad_key = false }

-- `ready` is what `tud_hid_ready` answers.
unfoldable pub send_hid_report : HidCodes → Device → Bool → ℕ → ℕ → Device
unfolding send_keyboard send_mouse send_consumer send_gamepad
send_hid_report codes d ready report_id btn =
    if not ready
    then d
    else if report_id == report_id_keyboard
    then send_keyboard codes d btn
    else if report_id == report_id_mouse
    then send_mouse d
    else if report_id == report_id_consumer_control
    then send_consumer codes d btn
    else if report_id == report_id_gamepad
    then send_gamepad codes d btn
    else d

-- What the board and TinyUSB answer during one call: `board_millis`, `board_button_read`,
-- `tud_hid_ready` and `tud_suspended`.
pub record Answers : Type 0 where
  pub millis : ℕ
  pub button : ℕ
  pub ready : Bool
  pub suspended : Bool

unfoldable pub hid_task : HidCodes → Device → Answers → Device
unfolding send_hid_report
hid_task codes d a =
    let interval_ms : ℕ = 10 in
    if ltb (sub32 a.millis d.task_start_ms) interval_ms
    then d
    else (let d = record d { task_start_ms = u32 (d.task_start_ms + interval_ms) } in
        if a.suspended && nonzero a.button
        then call d remote_wakeup
        else send_hid_report codes d a.ready report_id_keyboard a.button)

-- `report` is the report that has been sent, its first byte the report's id.
unfoldable pub tud_hid_report_complete_cb : HidCodes → Device → Answers → List ℕ → Device
unfolding send_hid_report
tud_hid_report_complete_cb codes d a report =
    let next_report_id = u8 (get_or report 0 0 + 1) in
    if ltb next_report_id report_id_count
    then send_hid_report codes d a.ready next_report_id a.button
    else d

unfoldable pub set_leds : HidCodes → Device → List ℕ → Device
set_leds codes d [] = d
set_leds codes d (kbd_leds ∷ rest) =
    if nonzero (bit_and kbd_leds codes.keyboard_led_capslock)
    then record (call d (led_write true)) { blink_interval_ms = 0 }
    else record (call d (led_write false)) { blink_interval_ms = blink_mounted }

unfoldable pub tud_hid_set_report_cb : HidCodes → Device → ℕ → ℕ → List ℕ → Device
unfolding set_leds
tud_hid_set_report_cb codes d report_id report_type buffer =
    if report_type == codes.hid_report_type_output
    then if report_id == report_id_keyboard then set_leds codes d buffer else d
    else d

unfoldable pub led_blinking_task : Device → Answers → Device
led_blinking_task d a =
    if not (nonzero d.blink_interval_ms)
    then d
    else if ltb (sub32 a.millis d.blink_start_ms) d.blink_interval_ms
    then d
    else (let d = record d { blink_start_ms = u32 (d.blink_start_ms + d.blink_interval_ms) } in
        record (call d (led_write d.led_state)) { led_state = not d.led_state })
