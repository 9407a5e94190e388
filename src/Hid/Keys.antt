-- ===== src/Hid/Keys.antt =====
-- host_cdc_msc_hid/hid_app.c: what a sequence of keyboard reports types, against a count of the
-- moments at which a key goes down.
use pico_cpp.Common.{ℕ, zero, suc, ◌+◌, ◌<◌, ◌≡◌, ◌≢◌, ◌∙◌, refl, ap, sym, arith}
use pico_cpp.Common.{List, [], ◌∷◌, ◌++◌, Option, none, some, true, false, not, nonzero, ◌==◌}
use pico_cpp.Common.{if◌then◌else◌, get_elem?, length, All, Bool-cases, inl, inr}
use pico_cpp.Common.{bit_and, bit_or}
use pico_cpp.Hid.Host.{Tusb, Host, KeyboardReport, Print, putchar, print, find_key_in_report}
use pico_cpp.Hid.Host.{key_char, key_prints, kbd_key, kbd_loop, process_kbd_report}

-- How many times a report lists a key.
abbrev pub listed : ℕ → List ℕ → ℕ
listed k [] = 0
listed k (key ∷ keys) = (if key == k then 1 else 0) + listed k keys

-- A count, if the report before did not list the key.
abbrev pub fresh_only : ℕ → List ℕ → ℕ → ℕ
fresh_only k before count = if listed k before == 0 then count else 0

-- How many times a key goes down in a sequence of reports: it is listed, and was not in the report
-- before.
abbrev pub presses : ℕ → List ℕ → List KeyboardReport → ℕ
presses k before [] = 0
presses k before (report ∷ reports) =
    fresh_only k before (listed k report.keycode) + presses k report.keycode reports

-- How many times a character is put out.
abbrev pub typed : ℕ → List Print → ℕ
typed c [] = 0
typed c (putchar ch ∷ out) = (if ch == c then 1 else 0) + typed c out
typed c (_ ∷ out) = typed c out

abbrev pub process_all : Tusb → Host → List KeyboardReport → Option Host
process_all tusb h [] = some h
process_all tusb h (report ∷ reports) = elim (process_kbd_report tusb h report) [
  | none ↦ none
  | some next ↦ process_all tusb next reports
]

-- The character `c` is that of the key `k`, with shift and without, and of no other key.
pub record Own (tusb : Tusb) (k c : ℕ) : Type 0 where
  pub is_key : k ≢ 0
  pub no_newline : c ≢ 10
  pub plain :
      (key : ℕ) (row : ℕ × ℕ)
      → get_elem? tusb.keycode2ascii key ≡ some row
      → (row.0 == c) ≡ (key == k)
  pub shifted :
      (key : ℕ) (row : ℕ × ℕ)
      → get_elem? tusb.keycode2ascii key ≡ some row
      → (row.1 == c) ≡ (key == k)

abbrev pub InTable : Tusb → List KeyboardReport → Type 0
InTable tusb = All (λ report. All (λ key. key < length tusb.keycode2ascii) report.keycode)

find_listed : (keys : List ℕ) (k : ℕ) → find_key_in_report keys k ≡ not (listed k keys == 0)
unfolding find_key_in_report
find_listed [] k = refl
find_listed (key ∷ keys) k = ground (arith, find_listed keys k)

typed-append : (c : ℕ) (xs ys : List Print) → typed c (xs ++ ys) ≡ typed c xs + typed c ys
typed-append c [] ys = omega arith
typed-append c (Print.putchar ch ∷ xs) ys = omega (arith, typed-append c xs ys)
typed-append c (Print.button_line l m r ∷ xs) ys = typed-append c xs ys
typed-append c (Print.cursor_line x y w ∷ xs) ys = typed-append c xs ys
typed-append c (Print.mounted a b ∷ xs) ys = typed-append c xs ys
typed-append c (Print.unmounted a b ∷ xs) ys = typed-append c xs ys
typed-append c (Print.protocol_line n ∷ xs) ys = typed-append c xs ys
typed-append c (Print.report_count_line n ∷ xs) ys = typed-append c xs ys
typed-append c (Print.no_report_info ∷ xs) ys = typed-append c xs ys
typed-append c (Print.cannot_request ∷ xs) ys = typed-append c xs ys

elem_below :
    (xs : List (ℕ × ℕ)) (i : ℕ) → i < length xs → (row : ℕ × ℕ) × (get_elem? xs i ≡ some row)
elem_below [] i h = absurd (omega arith)
elem_below (x ∷ xs) zero h = (x, refl)
elem_below (x ∷ xs) (suc i) h = elem_below xs i (omega arith)

typed-key_prints : (c ch : ℕ) → c ≢ 10 → typed c (key_prints ch) ≡ (if ch == c then 1 else 0)
unfolding key_prints
typed-key_prints c ch h = ground arith

module _ (tusb : Tusb) (k c : ℕ) (own : Own tusb k c) where
  char_of_row :
      (modifier key : ℕ) (row : ℕ × ℕ)
      → get_elem? tusb.keycode2ascii key ≡ some row
      → (ch : ℕ) × (key_char tusb modifier key ≡ some ch) × ((ch == c) ≡ (key == k))
  unfolding key_char
  char_of_row modifier key row found =
      elim (Bool-cases
        (nonzero (bit_and modifier (bit_or tusb.modifier_leftshift tusb.modifier_rightshift)))) [
          | inl shift ↦ (row.1, rw (key_char, found, shift) refl, own.shifted key row found)
          | inr plain ↦ (row.0, rw (key_char, found, plain) refl, own.plain key row found)
        ]

  char_own :
      (modifier key : ℕ)
      → key < length tusb.keycode2ascii
      → (ch : ℕ) × (key_char tusb modifier key ≡ some ch) × ((ch == c) ≡ (key == k))
  char_own modifier key h =
      let row = elem_below tusb.keycode2ascii key h in char_of_row modifier key row.0 row.1

  -- What one key of a report adds.
  key_typed :
      (prev : KeyboardReport) (modifier key : ℕ)
      → key < length tusb.keycode2ascii
      → (out : List Print) × (kbd_key tusb prev modifier key ≡ some out)
        × (typed c out ≡ fresh_only k prev.keycode (if key == k then 1 else 0))
  unfolding kbd_key
  key_typed prev modifier key h = elim (Bool-cases (nonzero key)) [
    | inr no_key ↦ ([], rw no_key refl, nothing own.is_key no_key)
    | inl is_key ↦ elim (Bool-cases (find_key_in_report prev.keycode key)) [
      | inl held ↦ ([], rw (is_key, held) refl, holding held)
      | inr fresh ↦
          let ch = char_own modifier key h in
          (
            key_prints ch.0,
            rw (is_key, fresh, ch.1) refl,
            typed-key_prints c ch.0 own.no_newline ∙ pressed ch.0 ch.2 fresh,
          )
    ]
  ]
    where
      nothing :
          k ≢ 0 → nonzero key ≡ false → 0 ≡ fresh_only k prev.keycode (if key == k then 1 else 0)
      nothing a b = ground arith

      holding :
          find_key_in_report prev.keycode key ≡ true
          → 0 ≡ fresh_only k prev.keycode (if key == k then 1 else 0)
      holding held = elim (Bool-cases (key == k)) [
        | inl same ↦
            let e : key ≡ k = ground arith in
            let found : not (listed k prev.keycode == 0) ≡ true =
              sym (find_listed prev.keycode k)
              ∙ ap (find_key_in_report prev.keycode) (sym e)
              ∙ held in
            ground arith
        | inr other ↦ ground arith
      ]

      pressed :
          (ch : ℕ)
          → (ch == c) ≡ (key == k)
          → find_key_in_report prev.keycode key ≡ false
          → (if ch == c then 1 else 0) ≡ fresh_only k prev.keycode (if key == k then 1 else 0)
      pressed ch is fresh = rw is (elim (Bool-cases (key == k)) [
        | inl same ↦
            let e : key ≡ k = ground arith in
            let free : not (listed k prev.keycode == 0) ≡ false =
              sym (find_listed prev.keycode k)
              ∙ ap (find_key_in_report prev.keycode) (sym e)
              ∙ fresh in
            ground arith
        | inr other ↦ ground arith
      ])

  loop_typed :
      (prev : KeyboardReport) (modifier : ℕ) (keys : List ℕ)
      → All (λ key. key < length tusb.keycode2ascii) keys
      → (out : List Print) × (kbd_loop tusb prev modifier keys ≡ some out)
        × (typed c out ≡ fresh_only k prev.keycode (listed k keys))
  unfolding kbd_loop
  loop_typed prev modifier [] h = ([], refl, ground arith)
  loop_typed prev modifier (key ∷ keys) h =
      let one = key_typed prev modifier key h.0 in
      let rest = loop_typed prev modifier keys h.1 in
      (
        one.0 ++ rest.0,
        rw (kbd_loop, one.1, rest.1) refl,
        typed-append c one.0 rest.0 ∙ both (typed c one.0) (typed c rest.0) one.2 rest.2,
      )
    where
      both :
          (x y : ℕ)
          → x ≡ fresh_only k prev.keycode (if key == k then 1 else 0)
          → y ≡ fresh_only k prev.keycode (listed k keys)
          → x + y ≡ fresh_only k prev.keycode (listed k (key ∷ keys))
      both x y a b = ground arith

  report_typed :
      (h : Host) (report : KeyboardReport)
      → All (λ key. key < length tusb.keycode2ascii) report.keycode
      → (next : Host) × (process_kbd_report tusb h report ≡ some next)
        × (next.prev_keyboard ≡ report)
        × (typed c next.printed
            ≡ typed c h.printed + fresh_only k h.prev_keyboard.keycode (listed k report.keycode))
  unfolding process_kbd_report
  report_typed h report below =
      let out = loop_typed h.prev_keyboard report.modifier report.keycode below in
      (
        record (print h out.0) { prev_keyboard = report },
        rw (process_kbd_report, out.1) refl,
        refl,
        typed-append c h.printed out.0 ∙ ap (λ n. typed c h.printed + n) out.2,
      )

  -- Reports whose keys are all in the table are processed without a fault, and a character that
  -- belongs to one key alone is put out once for each moment at which that key goes down, whatever
  -- the other keys and the shift keys do; a key that is held types nothing more.
  pub keyboard_presses :
      (h : Host) (reports : List KeyboardReport)
      → InTable tusb reports
      → (last : Host) × (process_all tusb h reports ≡ some last)
        × (typed c last.printed ≡ typed c h.printed + presses k h.prev_keyboard.keycode reports)
  keyboard_presses h [] below = (h, refl, omega arith)
  keyboard_presses h (report ∷ reports) below =
      let next = report_typed h report below.0 in
      let rest = keyboard_presses next.0 reports below.1 in
      let before : presses k (next.0).prev_keyboard.keycode reports
          ≡ presses k report.keycode reports =
        ap (λ r. presses k r.keycode reports) next.2 in
      (rest.0, rw (process_all, next.1) rest.1, omega (arith, rest.2, before, next.3))
