-- ===== src/Hid/Host.antt =====
-- usb/host/host_cdc_msc_hid/hid_app.c: the reports of keyboards, mice and other devices on the
-- host's side. What TinyUSB provides (its constants, the table of characters, the parser of report
-- descriptors, the layout of its report structs) is in `Tusb`; what is printed is a list, in order.
-- A result is `none` where the C reads outside an array.
use pico_cpp.Common.{ℕ, zero, suc, List, [], ◌∷◌, ◌++◌, Option, none, some, Bool, true, false}
use pico_cpp.Common.{if◌then◌else◌, ◌==◌, ◌&&◌, not, nonzero, bit_and, bit_or, bit_xor}
use pico_cpp.Common.{get_elem?, set, drop, get_or}

pub record KeyboardReport : Type 0 where
  pub modifier : ℕ
  pub reserved : ℕ
  pub keycode : List ℕ

-- The movements are bytes of two's complement, printed as they are.
pub record MouseReport : Type 0 where
  pub buttons : ℕ
  pub x : ℕ
  pub y : ℕ
  pub wheel : ℕ

pub record ReportInfo : Type 0 where
  pub report_id : ℕ
  pub usage : ℕ
  pub usage_page : ℕ

pub record HidInfo : Type 0 where
  pub report_count : ℕ
  pub report_info : List ReportInfo

abbrev pub max_report : ℕ
max_report = 4

pub record Tusb : Type 0 where
  pub protocol_none : ℕ
  pub protocol_keyboard : ℕ
  pub protocol_mouse : ℕ
  pub modifier_leftshift : ℕ
  pub modifier_rightshift : ℕ
  pub button_left : ℕ
  pub button_middle : ℕ
  pub button_right : ℕ
  pub usage_page_desktop : ℕ
  pub usage_keyboard : ℕ
  pub usage_mouse : ℕ
  -- The characters of a key, without shift and with it.
  pub keycode2ascii : List (ℕ × ℕ)
  -- `tuh_hid_parse_report_descriptor`: how many reports, and the array as it leaves it.
  pub parse_report_descriptor : List ReportInfo → ℕ → List ℕ → ℕ × List ReportInfo
  pub as_keyboard : List ℕ → KeyboardReport
  pub as_mouse : List ℕ → MouseReport

pub data Print : Type 0 where
  putchar : ℕ → Print
  button_line : Bool → Bool → Bool → Print
  cursor_line : ℕ → ℕ → ℕ → Print
  mounted unmounted : ℕ → ℕ → Print
  protocol_line report_count_line : ℕ → Print
  no_report_info cannot_request : Print

-- The static variables, and the prints since the start.
pub record Host : Type 0 where
  pub prev_keyboard : KeyboardReport
  pub prev_mouse : MouseReport
  pub hid_info : List HidInfo
  pub printed : List Print

abbrev pub print : Host → List Print → Host
print h out = record h { printed = h.printed ++ out }

unfoldable pub find_key_in_report : List ℕ → ℕ → Bool
find_key_in_report [] key = false
find_key_in_report (k ∷ keycode) key =
    let rest = find_key_in_report keycode key in if k == key then true else rest

unfoldable pub key_prints : ℕ → List Print
key_prints ch = putchar ch ∷ (if ch == 13 then putchar 10 ∷ [] else [])

unfoldable pub cursor_movement : ℕ → ℕ → ℕ → List Print
cursor_movement x y wheel = cursor_line x y wheel ∷ []

unfoldable pub find_info : List ReportInfo → ℕ → ℕ → Option ReportInfo
find_info [] rpt_count rpt_id = none
find_info (info ∷ infos) zero rpt_id = none
find_info (info ∷ infos) (suc rpt_count) rpt_id =
    let rest = find_info infos rpt_count rpt_id in
    if rpt_id == info.report_id then some info else rest

-- The report's info, and the bytes after the id where there is one.
unfoldable pub select_info : HidInfo → List ℕ → Option ReportInfo × List ℕ
unfolding find_info
select_info info report = elim info.report_info [
  | [] ↦ (none, drop 1 report)
  | first ∷ others ↦
      if (info.report_count == 1) && (first.report_id == 0)
      then (some first, report)
      else (find_info info.report_info info.report_count (get_or report 0 0), drop 1 report)
]

-- `requested` is what `tuh_hid_receive_report` answers.
unfoldable pub request_next : Host → Bool → Host
request_next h requested = if not requested then print h (cannot_request ∷ []) else h

module _ (tusb : Tusb) where
  unfoldable pub key_char : ℕ → ℕ → Option ℕ
  key_char modifier key =
      let is_shift =
        nonzero (bit_and modifier (bit_or tusb.modifier_leftshift tusb.modifier_rightshift)) in
      elim (get_elem? tusb.keycode2ascii key) [
        | none ↦ none
        | some row ↦ some (if is_shift then row.1 else row.0)
      ]

  -- One turn of the loop.
  unfoldable pub kbd_key : KeyboardReport → ℕ → ℕ → Option (List Print)
  unfolding key_char key_prints
  kbd_key prev modifier key =
      if nonzero key
      then if find_key_in_report prev.keycode key
        then some []
        else elim (key_char modifier key) [ none ↦ none | some ch ↦ some (key_prints ch) ]
      else some []

  unfoldable pub kbd_loop : KeyboardReport → ℕ → List ℕ → Option (List Print)
  unfolding kbd_key
  kbd_loop prev modifier [] = some []
  kbd_loop prev modifier (key ∷ keys) = elim (kbd_key prev modifier key) [
    | none ↦ none
    | some out ↦ elim (kbd_loop prev modifier keys) [ none ↦ none | some rest ↦ some (out ++ rest) ]
  ]

  unfoldable pub process_kbd_report : Host → KeyboardReport → Option Host
  unfolding kbd_loop
  process_kbd_report h report = elim (kbd_loop h.prev_keyboard report.modifier report.keycode) [
    | none ↦ none
    | some out ↦ some (record (print h out) { prev_keyboard = report })
  ]

  unfoldable pub process_mouse_report : Host → MouseReport → Host
  unfolding cursor_movement
  process_mouse_report h report =
      let button_changed_mask = bit_xor report.buttons h.prev_mouse.buttons in
      let h =
        if nonzero (bit_and button_changed_mask report.buttons)
        then print h (
            button_line (nonzero (bit_and report.buttons tusb.button_left))
              (nonzero (bit_and report.buttons tusb.button_middle))
              (nonzero (bit_and report.buttons tusb.button_right))
            ∷ [])
        else h in
      print h (cursor_movement report.x report.y report.wheel)

  unfoldable pub use_info : Host → Option ReportInfo → List ℕ → Option Host
  unfolding process_kbd_report process_mouse_report
  use_info h none report = some (print h (no_report_info ∷ []))
  use_info h (some rpt_info) report =
      if rpt_info.usage_page == tusb.usage_page_desktop
      then if rpt_info.usage == tusb.usage_keyboard
        then process_kbd_report h (tusb.as_keyboard report)
        else if rpt_info.usage == tusb.usage_mouse
        then some (process_mouse_report h (tusb.as_mouse report))
        else some h
      else some h

  unfoldable pub process_generic_report : Host → ℕ → List ℕ → Option Host
  unfolding select_info use_info
  process_generic_report h instance_no report = elim (get_elem? h.hid_info instance_no) [
    | none ↦ none
    | some info ↦ use_info h (select_info info report).0 (select_info info report).1
  ]

  -- `itf_protocol` is what `tuh_hid_interface_protocol` answers.
  unfoldable pub tuh_hid_report_received_cb : Host → ℕ → ℕ → List ℕ → Bool → Option Host
  unfolding process_generic_report request_next
  tuh_hid_report_received_cb h instance_no itf_protocol report requested =
      let done =
        if itf_protocol == tusb.protocol_keyboard
        then process_kbd_report h (tusb.as_keyboard report)
        else if itf_protocol == tusb.protocol_mouse
        then some (process_mouse_report h (tusb.as_mouse report))
        else process_generic_report h instance_no report in
      elim done [ none ↦ none | some h ↦ some (request_next h requested) ]

  unfoldable pub parse_generic : Host → ℕ → List ℕ → Option Host
  parse_generic h instance_no desc_report = elim (get_elem? h.hid_info instance_no) [
    | none ↦ none
    | some info ↦
        let parsed = tusb.parse_report_descriptor info.report_info max_report desc_report in
        let now : HidInfo = record { report_count = parsed.0; report_info = parsed.1 } in
        some (
          print (record h { hid_info = set h.hid_info instance_no now })
            (report_count_line parsed.0 ∷ []))
  ]

  unfoldable pub tuh_hid_mount_cb : Host → ℕ → ℕ → ℕ → List ℕ → Bool → Option Host
  unfolding parse_generic request_next
  tuh_hid_mount_cb h dev_addr instance_no itf_protocol desc_report requested =
      elim (get_elem? {A = ℕ} (0 ∷ 1 ∷ 2 ∷ []) itf_protocol) [
        | none ↦ none
        | some name ↦
            let h = print h (mounted dev_addr instance_no ∷ protocol_line name ∷ []) in
            let done =
              if itf_protocol == tusb.protocol_none
              then parse_generic h instance_no desc_report
              else some h in
            elim done [ none ↦ none | some h ↦ some (request_next h requested) ]
      ]

unfoldable pub tuh_hid_umount_cb : Host → ℕ → ℕ → Host
tuh_hid_umount_cb h dev_addr instance_no = print h (unmounted dev_addr instance_no ∷ [])
