-- ===== src/Hid/Mouse.antt =====
-- host_cdc_msc_hid/hid_app.c: which mouse reports print the line of the buttons.
use pico_cpp.Common.{ℕ, suc, ◌+◌, ◌<◌, ◌≡◌, ◌∙◌, refl, ap, arith}
use pico_cpp.Common.{List, [], ◌∷◌, ◌++◌, nonzero}
use pico_cpp.Common.{if◌then◌else◌, All, Bool-cases, inl, inr}
use pico_cpp.Common.{bit_and, bit_xor, eq_below, all_below}
use pico_cpp.Hid.Host.{Tusb, Host, MouseReport, Print}
use pico_cpp.Hid.Host.{process_mouse_report, cursor_movement, button_line, cursor_line}

abbrev pub move_all : Tusb → Host → List MouseReport → Host
move_all tusb h [] = h
move_all tusb h (report ∷ reports) = move_all tusb (process_mouse_report tusb h report) reports

-- The lines of the buttons that are printed, and the reports with a button down.
abbrev pub button_lines : List Print → ℕ
button_lines [] = 0
button_lines (button_line l m r ∷ out) = suc (button_lines out)
button_lines (_ ∷ out) = button_lines out

abbrev pub with_buttons : List MouseReport → ℕ
with_buttons [] = 0
with_buttons (report ∷ reports) = (if nonzero report.buttons then 1 else 0) + with_buttons reports

button_lines-append :
    (xs ys : List Print) → button_lines (xs ++ ys) ≡ button_lines xs + button_lines ys
button_lines-append [] ys = omega arith
button_lines-append (Print.button_line l m r ∷ xs) ys = omega (arith, button_lines-append xs ys)
button_lines-append (Print.putchar ch ∷ xs) ys = button_lines-append xs ys
button_lines-append (Print.cursor_line x y w ∷ xs) ys = button_lines-append xs ys
button_lines-append (Print.mounted a b ∷ xs) ys = button_lines-append xs ys
button_lines-append (Print.unmounted a b ∷ xs) ys = button_lines-append xs ys
button_lines-append (Print.protocol_line n ∷ xs) ys = button_lines-append xs ys
button_lines-append (Print.report_count_line n ∷ xs) ys = button_lines-append xs ys
button_lines-append (Print.no_report_info ∷ xs) ys = button_lines-append xs ys
button_lines-append (Print.cannot_request ∷ xs) ys = button_lines-append xs ys

changed_mask : (b : ℕ) → b < 256 → bit_and (bit_xor b 0) b ≡ b
unfolding all_below
changed_mask b h = eq_below 256 (λ x. bit_and (bit_xor x 0) x) (λ x. x) refl b h

mouse_once :
    (tusb : Tusb) (h : Host) (report : MouseReport)
    → h.prev_mouse.buttons ≡ 0
    → report.buttons < 256
    → ((process_mouse_report tusb h report).prev_mouse.buttons ≡ 0)
      × (button_lines (process_mouse_report tusb h report).printed
          ≡ button_lines h.printed + (if nonzero report.buttons then 1 else 0))
unfolding process_mouse_report cursor_movement
mouse_once tusb h report zero_before byte =
    let mask : bit_and (bit_xor report.buttons h.prev_mouse.buttons) report.buttons
        ≡ report.buttons =
      ap (λ before. bit_and (bit_xor report.buttons before) report.buttons) zero_before
      ∙ changed_mask report.buttons byte in
    elim (Bool-cases (nonzero report.buttons)) [
      | inl down ↦ (
        rw (process_mouse_report, mask, down) zero_before,
        rw (process_mouse_report, mask, down)
            (omega (
              arith,
              button_lines-append (h.printed ++ line ∷ []) (moved ∷ []),
              button_lines-append h.printed (line ∷ []),
            )),
      )
      | inr up ↦ (
        rw (process_mouse_report, mask, up) zero_before,
        rw (process_mouse_report, mask, up)
            (omega (arith, button_lines-append h.printed (moved ∷ []))),
      )
    ]
  where
    line : Print
    line =
        button_line (nonzero (bit_and report.buttons tusb.button_left))
          (nonzero (bit_and report.buttons tusb.button_middle))
          (nonzero (bit_and report.buttons tusb.button_right))

    moved : Print
    moved = cursor_line report.x report.y report.wheel

-- From the start every mouse report with a button down prints the line of the buttons, and no other
-- does: a button that is held prints it again with each report.
pub mouse_lines :
    (tusb : Tusb) (h : Host) (reports : List MouseReport)
    → h.prev_mouse.buttons ≡ 0
    → All (λ report. report.buttons < 256) reports
    → button_lines (move_all tusb h reports).printed ≡ button_lines h.printed + with_buttons reports
mouse_lines tusb h [] start bytes = omega arith
mouse_lines tusb h (report ∷ reports) start bytes =
    let once = mouse_once tusb h report start bytes.0 in
    omega
      (arith, once.1, mouse_lines tusb (process_mouse_report tusb h report) reports once.0 bytes.1)
