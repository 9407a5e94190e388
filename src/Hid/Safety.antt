-- ===== src/Hid/Safety.antt =====
-- dev_hid_composite/main.c: the flags and the releases in every order of the callbacks.
use pico_cpp.Common.{ℕ, refl, List, [], ◌∷◌}
use pico_cpp.Common.{Bool, true, false, nonzero, ◌==◌, ◌&&◌, ltb, get_or, Bool-cases}
use pico_cpp.Common.{inl, inr, u8, u32, sub32, bit_and, ◌+◌}
use pico_cpp.Hid.Device.{HidCodes, mouse_report}
use pico_cpp.Hid.Device.{remote_wakeup, led_write, Device, Answers, powered_on}
use pico_cpp.Hid.Device.{send_mouse, send_hid_report}
use pico_cpp.Hid.Releases.{
  Documented, Sound, call-Sound, send_keyboard-Sound, send_consumer-Sound, send_gamepad-Sound,
}
use pico_cpp.Hid.Device.{hid_task, tud_hid_report_complete_cb, tud_hid_set_report_cb, call}
use pico_cpp.Hid.Device.{led_blinking_task, tud_mount_cb, tud_umount_cb, tud_suspend_cb}
use pico_cpp.Hid.Device.{tud_resume_cb, set_leds}

-- Every order of the callbacks and of the tasks of the main loop.
pub data Reachable (codes : HidCodes) : Device → Type 0 where
  starts : Reachable codes powered_on
  polls : (d : Device) (a : Answers) → Reachable codes d → Reachable codes (hid_task codes d a)
  completes :
      (d : Device) (a : Answers) (report : List ℕ)
      → Reachable codes d
      → Reachable codes (tud_hid_report_complete_cb codes d a report)
  sets_report :
      (d : Device) (report_id report_type : ℕ) (buffer : List ℕ)
      → Reachable codes d
      → Reachable codes (tud_hid_set_report_cb codes d report_id report_type buffer)
  blinks : (d : Device) (a : Answers) → Reachable codes d → Reachable codes (led_blinking_task d a)
  mounts : (d : Device) → Reachable codes d → Reachable codes (tud_mount_cb d)
  unmounts : (d : Device) → Reachable codes d → Reachable codes (tud_umount_cb d)
  suspends : (d : Device) → Reachable codes d → Reachable codes (tud_suspend_cb d)
  resumes : (d : Device) → Reachable codes d → Reachable codes (tud_resume_cb d)

keeps_blinking : (d : Device) (ms : ℕ) → Sound d → Sound (record d { blink_interval_ms = ms })
keeps_blinking d ms s = record { keyboard = s.keyboard; consumer = s.consumer; gamepad = s.gamepad }

mouse-Sound : (d : Device) → Sound d → Sound (send_mouse d)
unfolding send_mouse
mouse-Sound d s = call-Sound d (mouse_report 2 0 5 5 0 0) refl refl refl s

module _ (codes : HidCodes) (known : Documented codes) where
  send_hid_report-Sound :
      (d : Device) (ready : Bool) (report_id btn : ℕ)
      → Sound d
      → Sound (send_hid_report codes d ready report_id btn)
  unfolding send_hid_report
  send_hid_report-Sound d false report_id btn s = s
  send_hid_report-Sound d true report_id btn s = elim (Bool-cases (report_id == 1)) [
    | inl one ↦ rw one (send_keyboard-Sound codes known d btn s)
    | inr one ↦ elim (Bool-cases (report_id == 2)) [
      | inl two ↦ rw (one, two) (mouse-Sound d s)
      | inr two ↦ elim (Bool-cases (report_id == 3)) [
        | inl three ↦ rw (one, two, three) (send_consumer-Sound codes known d btn s)
        | inr three ↦ elim (Bool-cases (report_id == 4)) [
          | inl four ↦ rw (one, two, three, four) (send_gamepad-Sound codes known d btn s)
          | inr four ↦ rw (one, two, three, four) s
        ]
      ]
    ]
  ]

  hid_task-Sound : (d : Device) (a : Answers) → Sound d → Sound (hid_task codes d a)
  unfolding hid_task
  hid_task-Sound d a s =
      let later : Device = record d { task_start_ms = u32 (d.task_start_ms + 10) } in
      let t : Sound later = record {
        keyboard = s.keyboard;
        consumer = s.consumer;
        gamepad = s.gamepad;
      } in
      elim (Bool-cases (ltb (sub32 a.millis d.task_start_ms) 10)) [
        | inl early ↦ rw early s
        | inr due ↦ elim (Bool-cases (a.suspended && nonzero a.button)) [
          | inl wakes ↦ rw (due, wakes) (call-Sound later remote_wakeup refl refl refl t)
          | inr sends ↦ rw (due, sends) (send_hid_report-Sound later a.ready 1 a.button t)
        ]
      ]

  complete_cb-Sound :
      (d : Device) (a : Answers) (report : List ℕ)
      → Sound d
      → Sound (tud_hid_report_complete_cb codes d a report)
  unfolding tud_hid_report_complete_cb
  complete_cb-Sound d a report s = elim (Bool-cases (ltb (u8 (get_or report 0 0 + 1)) 5)) [
    | inl next ↦ rw next (send_hid_report-Sound d a.ready (u8 (get_or report 0 0 + 1)) a.button s)
    | inr last ↦ rw last s
  ]

set_leds-Sound :
    (codes : HidCodes) (d : Device) (buffer : List ℕ) → Sound d → Sound (set_leds codes d buffer)
unfolding set_leds
set_leds-Sound codes d [] s = s
set_leds-Sound codes d (leds ∷ rest) s =
    elim (Bool-cases (nonzero (bit_and leds codes.keyboard_led_capslock))) [
      | inl caps ↦ rw caps (
          keeps_blinking (call d (led_write true)) 0
            (call-Sound d (led_write true) refl refl refl s))
      | inr off ↦ rw off (
          keeps_blinking (call d (led_write false)) 1000
            (call-Sound d (led_write false) refl refl refl s))
    ]

set_report-Sound :
    (codes : HidCodes) (d : Device) (report_id report_type : ℕ) (buffer : List ℕ)
    → Sound d
    → Sound (tud_hid_set_report_cb codes d report_id report_type buffer)
unfolding tud_hid_set_report_cb
set_report-Sound codes d report_id report_type buffer s =
    elim (Bool-cases (report_type == codes.hid_report_type_output)) [
      | inl out ↦ elim (Bool-cases (report_id == 1)) [
        | inl keys ↦ rw (out, keys) (set_leds-Sound codes d buffer s)
        | inr other ↦ rw (out, other) s
      ]
      | inr other ↦ rw other s
    ]

blinking-Sound : (d : Device) (a : Answers) → Sound d → Sound (led_blinking_task d a)
unfolding led_blinking_task
blinking-Sound d a s = elim (Bool-cases (nonzero d.blink_interval_ms)) [
  | inr off ↦ rw off s
  | inl on ↦ elim (Bool-cases (ltb (sub32 a.millis d.blink_start_ms) d.blink_interval_ms)) [
    | inl early ↦ rw (on, early) s
    | inr due ↦
        let t = call-Sound d (led_write d.led_state) refl refl refl s in
        rw (on, due) (record { keyboard = t.keyboard; consumer = t.consumer; gamepad = t.gamepad })
  ]
]

-- In every order of the tasks and the callbacks, with any answers: each flag says whether the last
-- report of its profile has the key down, and no report says that a key is up that was up already.
pub device-Sound :
    (codes : HidCodes) → Documented codes → (d : Device) → Reachable codes d → Sound d
unfolding tud_mount_cb tud_umount_cb tud_suspend_cb tud_resume_cb
device-Sound codes known d starts = record {
  keyboard = (refl, tt);
  consumer = (refl, tt);
  gamepad = (refl, tt);
}
device-Sound codes known d (polls b a r) =
    hid_task-Sound codes known b a (device-Sound codes known b r)
device-Sound codes known d (completes b a report r) =
    complete_cb-Sound codes known b a report (device-Sound codes known b r)
device-Sound codes known d (sets_report b report_id report_type buffer r) =
    set_report-Sound codes b report_id report_type buffer (device-Sound codes known b r)
device-Sound codes known d (blinks b a r) = blinking-Sound b a (device-Sound codes known b r)
device-Sound codes known d (mounts b r) = keeps_blinking b 1000 (device-Sound codes known b r)
device-Sound codes known d (unmounts b r) = keeps_blinking b 250 (device-Sound codes known b r)
device-Sound codes known d (suspends b r) = keeps_blinking b 2500 (device-Sound codes known b r)
device-Sound codes known d (resumes b r) = keeps_blinking b 1000 (device-Sound codes known b r)
