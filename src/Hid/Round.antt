-- ===== src/Hid/Round.antt =====
-- dev_hid_composite/main.c: the chain of reports that a poll of `hid_task` starts.
use pico_cpp.Common.{ℕ, ◌+◌, ◌≡◌, ◌∙◌, refl, ap, arith, List, [], ◌∷◌}
use pico_cpp.Common.{Bool, true, false, nonzero, ltb, length, Bool-cases}
use pico_cpp.Common.{inl, inr, u32, sub32, if◌then◌else◌}
use pico_cpp.Hid.Device.{HidCodes, Device, Answers, hid_task, send_hid_report, call, Call}
use pico_cpp.Hid.Device.{send_keyboard, send_mouse, send_consumer, send_gamepad, mouse_report}
use pico_cpp.Hid.Device.{
  tud_hid_report_complete_cb, keyboard_report, consumer_report, gamepad_report,
}
use pico_cpp.Hid.Device.{key_down, key_up, volume_down, volume_released, pad_down, pad_up}

-- TinyUSB calls back when a report has gone out; a report that is not sent ends the chain.
abbrev pub last_id : List Call → ℕ
last_id [] = 0
last_id (keyboard_report id modifier keys ∷ calls) = id
last_id (mouse_report id buttons x y vertical horizontal ∷ calls) = id
last_id (consumer_report id key ∷ calls) = id
last_id (gamepad_report id report ∷ calls) = id
last_id (_ ∷ calls) = 0

unfoldable pub chain : HidCodes → List Answers → Device → Device → Device
chain codes [] before d = d
chain codes (a ∷ answers) before d =
    let next = tud_hid_report_complete_cb codes d a (last_id d.sent ∷ []) in
    let rest = chain codes answers d next in
    if ltb (length before.sent) (length d.sent) then rest else d

-- A stack that takes a report, and the button.
pub record Willing (down : Bool) (a : Answers) : Type 0 where
  pub takes : a.ready ≡ true
  pub button_is : nonzero a.button ≡ down

abbrev pub mouse_moves : Call
mouse_moves = mouse_report 2 0 5 5 0 0

chain_goes_on :
    (codes : HidCodes) (a : Answers) (answers : List Answers) (before d next : Device)
    → ltb (length before.sent) (length d.sent) ≡ true
    → tud_hid_report_complete_cb codes d a (last_id d.sent ∷ []) ≡ next
    → chain codes (a ∷ answers) before d ≡ chain codes answers d next
unfolding chain
chain_goes_on codes a answers before d next grown e = rw grown (ap (chain codes answers d) e)

poll_due :
    (codes : HidCodes) (d : Device) (a : Answers) (down : Bool)
    → Willing down a
    → a.suspended ≡ false
    → ltb (sub32 a.millis d.task_start_ms) 10 ≡ false
    → hid_task codes d a
      ≡ send_keyboard codes (record d { task_start_ms = u32 (d.task_start_ms + 10) }) a.button
unfolding hid_task send_hid_report
poll_due codes d a down w awake due = rw (due, awake, w.takes) refl

keyboard_down :
    (codes : HidCodes) (d : Device) (btn : ℕ)
    → nonzero btn ≡ true
    → send_keyboard codes d btn ≡ record (call d (key_down codes)) { has_keyboard_key = true }
unfolding send_keyboard
keyboard_down codes d btn e = rw e refl

keyboard_up :
    (codes : HidCodes) (d : Device) (btn : ℕ)
    → nonzero btn ≡ false
    → d.has_keyboard_key ≡ true
    → send_keyboard codes d btn ≡ record (call d key_up) { has_keyboard_key = false }
unfolding send_keyboard
keyboard_up codes d btn e held = rw (e, held) refl

module _ (codes : HidCodes) (d : Device) (a : Answers) (down : Bool) (w : Willing down a) where
  keyboard_done : tud_hid_report_complete_cb codes d a (1 ∷ []) ≡ send_mouse d
  unfolding tud_hid_report_complete_cb send_hid_report
  keyboard_done = rw w.takes refl

  mouse_done : tud_hid_report_complete_cb codes d a (2 ∷ []) ≡ send_consumer codes d a.button
  unfolding tud_hid_report_complete_cb send_hid_report
  mouse_done = rw w.takes refl

  consumer_done : tud_hid_report_complete_cb codes d a (3 ∷ []) ≡ send_gamepad codes d a.button
  unfolding tud_hid_report_complete_cb send_hid_report
  consumer_done = rw w.takes refl

  to_mouse : tud_hid_report_complete_cb codes d a (1 ∷ []) ≡ call d mouse_moves
  unfolding send_mouse
  to_mouse = keyboard_done

module _ (codes : HidCodes) (d : Device) (a : Answers) where
  volume_goes_down :
      Willing true a
      → tud_hid_report_complete_cb codes d a (2 ∷ [])
        ≡ record (call d (volume_down codes)) { has_consumer_key = true }
  unfolding send_consumer
  volume_goes_down w = rw (mouse_done codes d a true w, w.button_is) refl

  volume_goes_up :
      Willing false a
      → d.has_consumer_key ≡ true
      → tud_hid_report_complete_cb codes d a (2 ∷ [])
        ≡ record (call d volume_released) { has_consumer_key = false }
  unfolding send_consumer
  volume_goes_up w held = rw (mouse_done codes d a false w, w.button_is, held) refl

  pad_goes_down :
      Willing true a
      → tud_hid_report_complete_cb codes d a (3 ∷ [])
        ≡ record (call d (pad_down codes)) { has_gamepad_key = true }
  unfolding send_gamepad
  pad_goes_down w = rw (consumer_done codes d a true w, w.button_is) refl

  pad_goes_up :
      Willing false a
      → d.has_gamepad_key ≡ true
      → tud_hid_report_complete_cb codes d a (3 ∷ [])
        ≡ record (call d (pad_up codes)) { has_gamepad_key = false }
  unfolding send_gamepad
  pad_goes_up w held = rw (consumer_done codes d a false w, w.button_is, held) refl

  nothing_follows : tud_hid_report_complete_cb codes d a (4 ∷ []) ≡ d
  unfolding tud_hid_report_complete_cb
  nothing_follows = refl

no_growth : (calls : List Call) → ltb (length calls) (length calls) ≡ false
no_growth calls = ground arith

one_more : (calls : List Call) (c : Call) → ltb (length calls) (length (c ∷ calls)) ≡ true
one_more calls c = ground arith

chain_rests : (codes : HidCodes) (more : List Answers) (d : Device) → chain codes more d d ≡ d
unfolding chain
chain_rests codes [] d = refl
chain_rests codes (a ∷ more) d = rw (no_growth d.sent) refl

chain_ends :
    (codes : HidCodes) (more : List Answers) (before d : Device)
    → last_id d.sent ≡ 4
    → chain codes more before d ≡ d
unfolding chain
chain_ends codes [] before d four = refl
chain_ends codes (a ∷ more) before d four =
    elim (Bool-cases (ltb (length before.sent) (length d.sent))) [
      | inl grown ↦ rw (grown, four, nothing_follows codes d a) (chain_rests codes more d)
      | inr same ↦ rw same refl
    ]

module _ (codes : HidCodes) (d : Device) (a₀ a₁ a₂ a₃ : Answers) (more : List Answers) where
  -- A poll that is due while the bus is awake, the button down at every reading and the stack ready
  -- each time, sends the four reports in the order keyboard, mouse, volume, game pad, each from the
  -- callback of the one before, and no more however often the stack calls back.
  pub press_round :
      Willing true a₀
      → Willing true a₁
      → Willing true a₂
      → Willing true a₃
      → a₀.suspended ≡ false
      → ltb (sub32 a₀.millis d.task_start_ms) 10 ≡ false
      → chain codes (a₁ ∷ a₂ ∷ a₃ ∷ more) d (hid_task codes d a₀) ≡ record d {
        task_start_ms = u32 (d.task_start_ms + 10);
        has_keyboard_key = true;
        has_consumer_key = true;
        has_gamepad_key = true;
        sent = pad_down codes ∷ volume_down codes ∷ mouse_moves ∷ key_down codes ∷ d.sent;
      }
  press_round w₀ w₁ w₂ w₃ awake due =
      let d₀ : Device = record d { task_start_ms = u32 (d.task_start_ms + 10) } in
      let d₁ : Device = record (call d₀ (key_down codes)) { has_keyboard_key = true } in
      let d₂ : Device = call d₁ mouse_moves in
      let d₃ : Device = record (call d₂ (volume_down codes)) { has_consumer_key = true } in
      let d₄ : Device = record (call d₃ (pad_down codes)) { has_gamepad_key = true } in
      ap (λ x. chain codes (a₁ ∷ a₂ ∷ a₃ ∷ more) d x)
        (poll_due codes d a₀ true w₀ awake due ∙ keyboard_down codes d₀ a₀.button w₀.button_is)
      ∙ chain_goes_on codes a₁ (a₂ ∷ a₃ ∷ more) d d₁ d₂ (one_more d.sent (key_down codes))
          (to_mouse codes d₁ a₁ true w₁)
      ∙ chain_goes_on codes a₂ (a₃ ∷ more) d₁ d₂ d₃ (one_more d₁.sent mouse_moves)
          (volume_goes_down codes d₂ a₂ w₂)
      ∙ chain_goes_on codes a₃ more d₂ d₃ d₄ (one_more d₂.sent (volume_down codes))
          (pad_goes_down codes d₃ a₃ w₃)
      ∙ chain_ends codes more d₃ d₄ refl

  -- The same with the button up at every reading, when all three profiles have a key down: the
  -- chain releases the keyboard, the volume key and the game pad.
  pub release_round :
      Willing false a₀
      → Willing false a₁
      → Willing false a₂
      → Willing false a₃
      → a₀.suspended ≡ false
      → ltb (sub32 a₀.millis d.task_start_ms) 10 ≡ false
      → d.has_keyboard_key ≡ true
      → d.has_consumer_key ≡ true
      → d.has_gamepad_key ≡ true
      → chain codes (a₁ ∷ a₂ ∷ a₃ ∷ more) d (hid_task codes d a₀) ≡ record d {
        task_start_ms = u32 (d.task_start_ms + 10);
        has_keyboard_key = false;
        has_consumer_key = false;
        has_gamepad_key = false;
        sent = pad_up codes ∷ volume_released ∷ mouse_moves ∷ key_up ∷ d.sent;
      }
  release_round w₀ w₁ w₂ w₃ awake due key volume pad =
      let d₀ : Device = record d { task_start_ms = u32 (d.task_start_ms + 10) } in
      let d₁ : Device = record (call d₀ key_up) { has_keyboard_key = false } in
      let d₂ : Device = call d₁ mouse_moves in
      let d₃ : Device = record (call d₂ volume_released) { has_consumer_key = false } in
      let d₄ : Device = record (call d₃ (pad_up codes)) { has_gamepad_key = false } in
      ap (λ x. chain codes (a₁ ∷ a₂ ∷ a₃ ∷ more) d x)
        (poll_due codes d a₀ false w₀ awake due ∙ keyboard_up codes d₀ a₀.button w₀.button_is key)
      ∙ chain_goes_on codes a₁ (a₂ ∷ a₃ ∷ more) d d₁ d₂ (one_more d.sent key_up)
          (to_mouse codes d₁ a₁ false w₁)
      ∙ chain_goes_on codes a₂ (a₃ ∷ more) d₁ d₂ d₃ (one_more d₁.sent mouse_moves)
          (volume_goes_up codes d₂ a₂ w₂ volume)
      ∙ chain_goes_on codes a₃ more d₂ d₃ d₄ (one_more d₂.sent volume_released)
          (pad_goes_up codes d₃ a₃ w₃ pad)
      ∙ chain_ends codes more d₃ d₄ refl

-- The task polled again and again.
abbrev pub poll_all : HidCodes → Device → List Answers → Device
poll_all codes d [] = d
poll_all codes d (a ∷ answers) = poll_all codes (hid_task codes d a) answers

abbrev pub ButtonUp : List Answers → Type 0
ButtonUp [] = Unit
ButtonUp (a ∷ answers) = (a.button ≡ 0) × ButtonUp answers

quiet_poll :
    (codes : HidCodes) (d : Device) (a : Answers)
    → a.button ≡ 0
    → d.has_keyboard_key ≡ false
    → ((hid_task codes d a).has_keyboard_key ≡ false) × ((hid_task codes d a).sent ≡ d.sent)
unfolding hid_task send_hid_report send_keyboard
quiet_poll codes d a up key = ground arith

-- While the button is up and no keyboard key is down, polls send nothing: a volume key or a game
-- pad that the host holds down stays so, however long the button is up.
pub quiet_polls :
    (codes : HidCodes) (answers : List Answers) (d : Device)
    → ButtonUp answers
    → d.has_keyboard_key ≡ false
    → (poll_all codes d answers).sent ≡ d.sent
quiet_polls codes [] d up key = refl
quiet_polls codes (a ∷ answers) d up key =
    let once = quiet_poll codes d a up.0 key in
    quiet_polls codes answers (hid_task codes d a) up.1 once.0 ∙ once.1
