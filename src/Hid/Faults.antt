-- ===== src/Hid/Faults.antt =====
-- host_cdc_msc_hid/hid_app.c: the key codes beyond the table of characters.
use pico_cpp.Common.{ℕ, zero, suc, ◌≤◌, ◌≡◌, ◌≢◌, ◌∙◌, refl, ap, arith}
use pico_cpp.Common.{List, [], ◌∷◌, ◌++◌, none, true, false, nonzero}
use pico_cpp.Common.{get_elem?, length, Option-cases, inl, inr}
use pico_cpp.Hid.Host.{Tusb, Host, KeyboardReport}
use pico_cpp.Hid.Host.{find_key_in_report, key_char, kbd_key, kbd_loop, process_kbd_report}

none_beyond : (xs : List (ℕ × ℕ)) (i : ℕ) → length xs ≤ i → get_elem? xs i ≡ none
none_beyond [] i h = refl
none_beyond (x ∷ xs) zero h = absurd (omega arith)
none_beyond (x ∷ xs) (suc i) h = none_beyond xs i (omega arith)

loop_stops :
    (tusb : Tusb) (prev : KeyboardReport) (modifier key : ℕ) (keys after : List ℕ)
    → kbd_key tusb prev modifier key ≡ none
    → kbd_loop tusb prev modifier (keys ++ key ∷ after) ≡ none
unfolding kbd_loop
loop_stops tusb prev modifier key [] after e = rw (kbd_loop, e) refl
loop_stops tusb prev modifier key (k ∷ keys) after e =
    let rest = loop_stops tusb prev modifier key keys after e in
    elim (Option-cases (kbd_key tusb prev modifier k)) [
      | inl faults ↦ rw (kbd_loop, faults) refl
      | inr prints ↦ rw (kbd_loop, prints.1, rest) refl
    ]

key_faults :
    (tusb : Tusb) (prev : KeyboardReport) (modifier key : ℕ)
    → key ≢ 0
    → find_key_in_report prev.keycode key ≡ false
    → length tusb.keycode2ascii ≤ key
    → kbd_key tusb prev modifier key ≡ none
unfolding kbd_key key_char
key_faults tusb prev modifier key some_key fresh beyond =
    let is_key : nonzero key ≡ true = ground arith in
    let out : get_elem? tusb.keycode2ascii key ≡ none = none_beyond tusb.keycode2ascii key beyond in
    rw (is_key, fresh, out) refl

-- A key that goes down, at any place of a report, and whose code is beyond the table of characters
-- makes the handler read outside the table.
pub unknown_key_fault :
    (tusb : Tusb) (h : Host) (report : KeyboardReport) (keys after : List ℕ) (key : ℕ)
    → report.keycode ≡ keys ++ key ∷ after
    → key ≢ 0
    → find_key_in_report h.prev_keyboard.keycode key ≡ false
    → length tusb.keycode2ascii ≤ key
    → process_kbd_report tusb h report ≡ none
unfolding process_kbd_report
unknown_key_fault tusb h report keys after key is some_key fresh beyond =
    let stops : kbd_loop tusb h.prev_keyboard report.modifier report.keycode ≡ none =
      ap (kbd_loop tusb h.prev_keyboard report.modifier) is
      ∙ loop_stops tusb h.prev_keyboard report.modifier key keys after
          (key_faults tusb h.prev_keyboard report.modifier key some_key fresh beyond) in
    rw (process_kbd_report, stops) refl
