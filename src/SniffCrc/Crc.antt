-- ===== src/SniffCrc/Crc.antt =====
-- sniff_crc.c: the CRC, and the check of data that its own CRC follows.
use pico_cpp.Common.{ℕ, zero, suc, ◌-◌, ◌/◌, ◌%◌, ◌^◌, ◌<◌, ◌≡◌, ◌∙◌, refl, ap, arith}
use pico_cpp.Common.{List, [], ◌∷◌, ◌++◌, if◌then◌else◌, nonzero, ◌>>>◌, bit_xor, bit_and, u8}
use pico_cpp.Common.{bit_and_low, bit_xor-parity, bit_xor-zero, bit_xor-below, bytes_of_u32}
use pico_cpp.Common.{false}

abbrev pub crc32_init : ℕ
crc32_init = 2 ^ 32 - 1

abbrev pub polynomial : ℕ
polynomial = 0xEDB88320

-- One turn of the inner loop.
unfoldable pub crc_bit : ℕ → ℕ → ℕ
crc_bit crc byte32 =
    bit_xor (crc >>> 1) (if nonzero (bit_and (bit_xor crc byte32) 1) then polynomial else 0)

-- The inner loop, `bit` turns of it.
unfoldable pub crc_bits : ℕ → ℕ → ℕ → ℕ
unfolding crc_bit
crc_bits zero crc byte32 = crc
crc_bits (suc bit) crc byte32 = crc_bits bit (crc_bit crc byte32) (byte32 >>> 1)

unfoldable pub soft_crc32_block : ℕ → List ℕ → ℕ
unfolding crc_bits
soft_crc32_block crc [] = crc
soft_crc32_block crc (byte32 ∷ bytes) = soft_crc32_block (crc_bits 8 crc byte32) bytes

-- The data and the CRC behind it, in the buffer that `main` fills.
unfoldable pub with_crc : List ℕ → List ℕ
unfolding soft_crc32_block
with_crc data_to_check = data_to_check ++ bytes_of_u32 (soft_crc32_block crc32_init data_to_check)

pub parity_test : (x : ℕ) → bit_and x 1 ≡ x % 2
parity_test x = bit_and_low 1 x

pub block-append :
    (crc : ℕ) (xs ys : List ℕ)
    → soft_crc32_block crc (xs ++ ys) ≡ soft_crc32_block (soft_crc32_block crc xs) ys
unfolding soft_crc32_block
block-append crc [] ys = refl
block-append crc (x ∷ xs) ys = block-append (crc_bits 8 crc x) xs ys

pub crc_bit_below : (c b : ℕ) → c < 2 ^ 32 → crc_bit c b < 2 ^ 32
unfolding crc_bit
crc_bit_below c b h =
    bit_xor-below 32 (c >>> 1) (if nonzero (bit_and (bit_xor c b) 1) then polynomial else 0)
      (omega arith) (ground arith)

pub crc_bits_below : (n c b : ℕ) → c < 2 ^ 32 → crc_bits n c b < 2 ^ 32
unfolding crc_bits
crc_bits_below zero c b h = h
crc_bits_below (suc n) c b h = crc_bits_below n (crc_bit c b) (b >>> 1) (crc_bit_below c b h)

pub block_below : (c : ℕ) (bytes : List ℕ) → c < 2 ^ 32 → soft_crc32_block c bytes < 2 ^ 32
unfolding soft_crc32_block
block_below c [] h = h
block_below c (b ∷ bytes) h = block_below (crc_bits 8 c b) bytes (crc_bits_below 8 c b h)

-- The lowest bits of two numbers agree.
abbrev pub Agree : ℕ → ℕ → ℕ → Type 0
Agree zero c b = Unit
Agree (suc n) c b = (c % 2 ≡ b % 2) × Agree n (c / 2) (b / 2)

abbrev pub halves : ℕ → ℕ → ℕ
halves zero c = c
halves (suc n) c = halves n (c / 2)

agreeing_bit : (c b : ℕ) → c % 2 ≡ b % 2 → crc_bit c b ≡ c / 2
unfolding crc_bit
agreeing_bit c b same =
    let even : nonzero (bit_and (bit_xor c b) 1) ≡ false =
      ground (arith, parity_test (bit_xor c b), bit_xor-parity c b) in
    rw (crc_bit, even) (bit_xor-zero (c / 2))

-- Data that agrees with the lowest bits of the CRC shifts them out.
agreeing_bits : (n c b : ℕ) → Agree n c b → crc_bits n c b ≡ halves n c
unfolding crc_bits
agreeing_bits zero c b same = refl
agreeing_bits (suc n) c b same =
    ap (λ x. crc_bits n x (b / 2)) (agreeing_bit c b same.0)
    ∙ agreeing_bits n (c / 2) (b / 2) same.1

own_byte : (c : ℕ) → Agree 8 c (u8 c)
own_byte c = (
  omega arith,
  (
    omega arith,
    (omega arith, (omega arith, (omega arith, (omega arith, (omega arith, (omega arith, tt)))))),
  ),
)

eight : (c : ℕ) → halves 8 c ≡ c >>> 8
eight c = omega arith

byte_out : (c : ℕ) → crc_bits 8 c (u8 c) ≡ c >>> 8
byte_out c = agreeing_bits 8 c (u8 c) (own_byte c) ∙ eight c

four_out : (c : ℕ) → c < 2 ^ 32 → soft_crc32_block c (bytes_of_u32 c) ≡ 0
unfolding soft_crc32_block
four_out c h =
    let w₁ = u8 (c >>> 8) in
    let w₂ = u8 (c >>> 16) in
    let w₃ = u8 (c >>> 24) in
    let two : (c >>> 8) >>> 8 ≡ c >>> 16 = omega arith in
    let three : (c >>> 16) >>> 8 ≡ c >>> 24 = omega arith in
    let none_left : (c >>> 24) >>> 8 ≡ 0 = omega arith in
    ap (λ x. soft_crc32_block x (w₁ ∷ w₂ ∷ w₃ ∷ [])) (byte_out c)
    ∙ ap (λ x. soft_crc32_block x (w₂ ∷ w₃ ∷ [])) (byte_out (c >>> 8) ∙ two)
    ∙ ap (λ x. soft_crc32_block x (w₃ ∷ [])) (byte_out (c >>> 16) ∙ three)
    ∙ byte_out (c >>> 24)
    ∙ none_left

-- Data with its CRC behind it, lowest byte first, has the CRC 0: what the program's check expects.
pub with_crc_passes :
    (data_to_check : List ℕ) → soft_crc32_block crc32_init (with_crc data_to_check) ≡ 0
unfolding with_crc
with_crc_passes data_to_check =
    let crc = soft_crc32_block crc32_init data_to_check in
    block-append crc32_init data_to_check (bytes_of_u32 crc)
    ∙ four_out crc (block_below crc32_init data_to_check (omega arith))
