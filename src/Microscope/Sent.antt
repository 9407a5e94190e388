-- ===== src/Microscope/Sent.antt =====
-- What the chips receive: the generator's frequency register, the words of the AD5664, and the levels
-- of the output ports.
use pico_cpp.Common.{ℕ, ◌+◌, ◌*◌, ◌/◌, ◌%◌, ◌^◌, ◌<◌, ◌≤◌, ◌≡◌, ◌∙◌, refl, sym, ap, ap₂, arith}
use pico_cpp.Common.{List, [], ◌∷◌, Bool, true, false, ◌==◌, Bool-cases, inl, inr}
use pico_cpp.Common.{
  ◌≢◌, All, eq_below, all_below, if◌then◌else◌, length, u8, bit_and, bit_or, bit_and_low,
  bit_or-disjoint,
}
use pico_cpp.Common.{◌>>>◌}
use pico_cpp.Microscope.Board.{Event, gpio_put, spi_write, active_port, set_io_value}
use pico_cpp.Microscope.Converters.{n_reg, set_freq}
use pico_cpp.Microscope.Ad5664.{write_message}

-- The generator takes two bytes as a word whose upper two bits, 01, name its first frequency register.
unfoldable pub frequency_words : List Event → List ℕ
frequency_words [] = []
frequency_words (spi_write (hi ∷ lo ∷ []) ∷ es) =
    let word = hi * 256 + lo in
    let rest = frequency_words es in if word / 2 ^ 14 == 1 then word % 2 ^ 14 ∷ rest else rest
frequency_words (e ∷ es) = frequency_words es

flagged : (v : ℕ) → bit_or (2 ^ 14) (bit_and v 0x3fff) ≡ 2 ^ 14 + v % 2 ^ 14
flagged v =
    ap (bit_or (2 ^ 14)) (bit_and_low 14 v) ∙ bit_or-disjoint 14 1 (v % 2 ^ 14) (omega arith)

word_sent :
    (r : ℕ) (es : List Event)
    → r < 2 ^ 14
    → frequency_words (spi_write (u8 ((2 ^ 14 + r) / 0x100) ∷ (2 ^ 14 + r) % 0x100 ∷ []) ∷ es)
      ≡ r ∷ frequency_words es
unfolding frequency_words
word_sent r es small =
    let word : u8 ((2 ^ 14 + r) / 0x100) * 256 + (2 ^ 14 + r) % 0x100 ≡ 2 ^ 14 + r = omega arith in
    let mine : ((2 ^ 14 + r) / 2 ^ 14 == 1) ≡ true = ground arith in
    let low : (2 ^ 14 + r) % 2 ^ 14 ≡ r = omega arith in rw (frequency_words, word, mine, low) refl

-- For a frequency below 25 MHz the generator's register gets the low and the high half of a number
-- that stands for the frequency: its step of 25 MHz / 2 ^ 28 times this number is the greatest that is
-- not above the frequency.
pub set_freq_lem :
    (freq : ℕ)
    → freq < 25000000
    → (n : ℕ) × (frequency_words (set_freq freq) ≡ n % 2 ^ 14 ∷ n / 2 ^ 14 ∷ [])
      × (n * 25000000 ≤ freq * 2 ^ 28)
      × (freq * 2 ^ 28 < (n + 1) * 25000000)
unfolding set_freq n_reg frequency_words active_port
set_freq_lem freq below =
    let n = freq * 2 ^ 28 / 25000000 in
    let bytes : ℕ → ℕ → List ℕ = λ a b. frequency_words (
      spi_write (u8 (a / 0x100) ∷ a % 0x100 ∷ [])
      ∷ spi_write (u8 (b / 0x100) ∷ b % 0x100 ∷ [])
      ∷ spi_write (0x20 ∷ 0x00 ∷ [])
      ∷ []) in
    let control : List Event = spi_write (0x20 ∷ 0x00 ∷ []) ∷ [] in
    let second : ℕ → List Event = λ b. spi_write (u8 (b / 0x100) ∷ b % 0x100 ∷ []) ∷ control in
    let high : n / 2 ^ 14 % 2 ^ 14 ≡ n / 2 ^ 14 = omega arith in
    (
      n,
      ap₂ bytes (flagged n) (flagged (n >>> 14))
          ∙ word_sent (n % 2 ^ 14) (second (2 ^ 14 + (n >>> 14) % 2 ^ 14)) (omega arith)
          ∙ ap (λ l. n % 2 ^ 14 ∷ l) (word_sent (n / 2 ^ 14 % 2 ^ 14) control (omega arith))
          ∙ ap (λ h. n % 2 ^ 14 ∷ h ∷ []) high,
      omega arith,
      omega arith,
    )

first_byte :
    (command address : ℕ)
    → command < 8
    → address < 8
    → bit_or (bit_and (command * 8) 0x38) (bit_and address 0x07) ≡ command * 8 + address
unfolding all_below
first_byte command address sc sa =
    let m = command * 8 + address in
    let table =
      eq_below 64 (λ k. bit_or (bit_and (k / 8 * 8) 0x38) (bit_and (k % 8) 0x07)) (λ k. k) refl m
        (omega arith) in
    let upper : m / 8 * 8 ≡ command * 8 = omega arith in
    let lower : m % 8 ≡ address = omega arith in
    sym (ap₂ (λ u l. bit_or (bit_and u 0x38) (bit_and l 0x07)) upper lower) ∙ table

-- A message to the AD5664 is one transfer of three bytes while its select line is low: the first
-- byte has the number of the command and the address, and the others have the value, the upper byte
-- first.
pub message_words :
    (command address value : ℕ)
    → command < 8
    → address < 8
    → value < 65536
    → (hi lo : ℕ) × (write_message (command * 8) address value
        ≡ gpio_put 10 false
          ∷ spi_write ((command * 8 + address) ∷ hi ∷ lo ∷ [])
          ∷ gpio_put 10 true
          ∷ [])
      × (hi * 256 + lo ≡ value)
      × (lo < 256)
unfolding write_message
message_words command address value sc sa sv =
    let low : u8 (bit_and value 0x00ff) ≡ value % 256 = ap u8 (bit_and_low 8 value) ∙ omega arith in
    (
      u8 (value >>> 8),
      value % 256,
      ap₂
          (λ (f l : ℕ).
            gpio_put 10 false ∷ spi_write (f ∷ u8 (value >>> 8) ∷ l ∷ []) ∷ gpio_put 10 true ∷ [])
          (first_byte command address sc sa) low,
      omega arith,
      omega arith,
    )

-- The levels of the ports after some calls.
unfoldable pub levels : List Event → (ℕ → Bool) → ℕ → Bool
levels [] before = before
levels (gpio_put port value ∷ es) before = levels es (λ q. if q == port then value else before q)
levels (e ∷ es) before = levels es before

-- A number that ports spell, the lowest bit first.
unfoldable pub spelled : (ℕ → Bool) → List ℕ → ℕ
spelled level [] = 0
spelled level (port ∷ ports) = (if level port then 1 else 0) + 2 * spelled level ports

-- `active_port` puts the lowest three bits of the number on the decoder's ports 4, 5 and 6, and leaves
-- every other port as it is.
pub active_port_lem :
    (port : ℕ) (before : ℕ → Bool) (q : ℕ)
    → q ≢ 4
    → q ≢ 5
    → q ≢ 6
    → (spelled (levels (active_port port) before) (4 ∷ 5 ∷ 6 ∷ []) ≡ port % 8)
      × (levels (active_port port) before q ≡ before q)
unfolding active_port levels spelled
active_port_lem port before q a b c = (ground arith, ground arith)

-- The ports of the three groups.
unfoldable pub group : ℕ → List ℕ
group port =
    if port == 1
    then 11 ∷ 12 ∷ []
    else if port == 2
    then 13 ∷ 14 ∷ 15 ∷ []
    else if port == 3
    then 26 ∷ 27 ∷ []
    else []

-- `set_io_value` puts as many of a number's lowest bits as the group has ports on that group's
-- ports, and leaves every port outside of the group as it is; for any other number of a group nothing
-- is done.
pub set_io_value_lem :
    (port value : ℕ) (before : ℕ → Bool) (q : ℕ)
    → All (λ g. q ≢ g) (group port)
    → (spelled (levels (set_io_value port value) before) (group port)
        ≡ value % 2 ^ length (group port))
      × (levels (set_io_value port value) before q ≡ before q)
unfolding set_io_value levels spelled group
set_io_value_lem port value before q away = elim (Bool-cases (port == 1)) [
  | inl one ↦ let far = rw one at away in rw one (ground arith, ground arith)
  | inr not_one ↦ elim (Bool-cases (port == 2)) [
    | inl two ↦
        let far = rw (not_one, two) at away in rw (not_one, two) (ground arith, ground arith)
    | inr not_two ↦ elim (Bool-cases (port == 3)) [
      | inl three ↦
          let far = rw (not_one, not_two, three) at away in
          rw (not_one, not_two, three) (ground arith, ground arith)
      | inr not_three ↦ rw (not_one, not_two, not_three) (omega arith, refl)
    ]
  ]
]
