-- ===== src/Hid/Polling.antt =====
-- dev_hid_composite/main.c: how often the timer of `hid_task` lets a poll through.
use pico_cpp.Common.{ℕ, zero, suc, ◌+◌, ◌*◌, ◌/◌, ◌^◌, ◌<◌, ◌≡◌, ◌∙◌, refl, arith, min}
use pico_cpp.Common.{Bool, true, false, nonzero, ◌&&◌, ltb, Bool-cases}
use pico_cpp.Common.{inl, inr, u32, sub32}
use pico_cpp.Hid.Device.{HidCodes, Device, Answers, hid_task, send_hid_report}
use pico_cpp.Hid.Device.{send_keyboard}

-- The task called `n` times while the clock stands still.
abbrev pub polls : HidCodes → ℕ → Device → Answers → Device
polls codes zero d a = d
polls codes (suc n) d a = polls codes n (hid_task codes d a) a

keyboard_timer :
    (codes : HidCodes) (d : Device) (btn : ℕ)
    → (send_keyboard codes d btn).task_start_ms ≡ d.task_start_ms
unfolding send_keyboard
keyboard_timer codes d btn = ground arith

report_timer :
    (codes : HidCodes) (d : Device) (ready : Bool) (btn : ℕ)
    → (send_hid_report codes d ready 1 btn).task_start_ms ≡ d.task_start_ms
unfolding send_hid_report
report_timer codes d false btn = refl
report_timer codes d true btn = keyboard_timer codes d btn

early_timer :
    (codes : HidCodes) (d : Device) (a : Answers)
    → ltb (sub32 a.millis d.task_start_ms) 10 ≡ true
    → (hid_task codes d a).task_start_ms ≡ d.task_start_ms
unfolding hid_task
early_timer codes d a e = rw e refl

due_timer :
    (codes : HidCodes) (d : Device) (a : Answers)
    → ltb (sub32 a.millis d.task_start_ms) 10 ≡ false
    → (hid_task codes d a).task_start_ms ≡ u32 (d.task_start_ms + 10)
unfolding hid_task
due_timer codes d a e =
    let later : Device = record d { task_start_ms = u32 (d.task_start_ms + 10) } in
    elim (Bool-cases (a.suspended && nonzero a.button)) [
      | inl wakes ↦ rw (e, wakes) refl
      | inr sends ↦ rw (e, sends) (report_timer codes later a.ready a.button)
    ]

-- Polls at one reading of the clock catch up on what is due and no more: of `n` calls as many pass
-- the timer as whole intervals of 10 ms have gone by since its start, on a 32-bit clock that wraps.
pub hid_task_catches_up :
    (codes : HidCodes) (n : ℕ) (d : Device) (a : Answers)
    → a.millis < 2 ^ 32
    → d.task_start_ms < 2 ^ 32
    → (polls codes n d a).task_start_ms
      ≡ u32 (d.task_start_ms + 10 * min n (sub32 a.millis d.task_start_ms / 10))
hid_task_catches_up codes zero d a now start = omega arith
hid_task_catches_up codes (suc n) d a now start =
    elim (Bool-cases (ltb (sub32 a.millis d.task_start_ms) 10)) [
      | inl early ↦
          let same = early_timer codes d a early in
          let rest = hid_task_catches_up codes n (hid_task codes d a) a now (omega (arith, same)) in
          let few : sub32 a.millis d.task_start_ms < 10 = ground arith in
          rest ∙ rw same (omega (arith, few))
      | inr due ↦
          let next = due_timer codes d a due in
          let rest = hid_task_catches_up codes n (hid_task codes d a) a now (omega (arith, next)) in
          let many : 9 < sub32 a.millis d.task_start_ms = ground arith in
          rest ∙ rw next (omega (arith, many))
    ]
