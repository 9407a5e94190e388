-- ===== src/SniffCrc/Detect.antt =====
-- sniff_crc.c: the CRC sees every change of one byte.
use pico_cpp.Common.{ℕ, zero, suc, ◌+◌, ◌/◌, ◌%◌, ◌^◌, ◌<◌, ◌≡◌, ◌≢◌, ◌∙◌, refl, ap, sym, arith}
use pico_cpp.Common.{List, [], ◌∷◌, ◌++◌, if◌then◌else◌, nonzero, bit_xor, bit_and}
use pico_cpp.Common.{bit_xor-parity, bit_xor-zero, bit_xor-half, bit_xor-swap, bit_xor-cancel}
use pico_cpp.Common.{bit_xor-cancel_left, lane, lane-bit_xor, lane-zero, lane-beyond}
use pico_cpp.Common.{true, false, Bool}
use pico_cpp.Common.{bit_xor-below}
use native.Mathlib.Nat.{pow-suc}
use pico_cpp.SniffCrc.Crc.{crc32_init, polynomial, crc_bit, crc_bits, soft_crc32_block}
use pico_cpp.SniffCrc.Crc.{parity_test, block-append, crc_bit_below, crc_bits_below, block_below}

feedback : Bool → ℕ
feedback odd = if odd then polynomial else 0

odd_sum : ℕ → ℕ → Bool
odd_sum c b = nonzero (bit_and (bit_xor c b) 1)

-- The highest bit of the new CRC is the parity that was fed back.
top_fed :
    (c : ℕ) (odd : Bool)
    → c < 2 ^ 32
    → lane (bit_xor (c / 2) (feedback odd)) 31 ≡ (if odd then 1 else 0)
unfolding feedback
top_fed c true h =
    omega (arith, lane-bit_xor (c / 2) polynomial 31, lane-beyond 31 (c / 2) (omega arith), top_one)
  where
    top_one : lane 0xEDB88320 31 ≡ 1
    top_one = refl
top_fed c false h =
    omega (arith, lane-bit_xor (c / 2) 0 31, lane-beyond 31 (c / 2) (omega arith), lane-zero 31)

fed_equal :
    (c d : ℕ) (p q : Bool)
    → c < 2 ^ 32
    → d < 2 ^ 32
    → bit_xor (c / 2) (feedback p) ≡ bit_xor (d / 2) (feedback q)
    → (p ≡ q) × (c / 2 ≡ d / 2)
fed_equal c d true true hc hd e = (refl, bit_xor-cancel (c / 2) (d / 2) (feedback true) e)
fed_equal c d false false hc hd e = (refl, bit_xor-cancel (c / 2) (d / 2) (feedback false) e)
fed_equal c d true false hc hd e =
    absurd (omega (arith, top_fed c true hc, top_fed d false hd, ap (λ x. lane x 31) e))
fed_equal c d false true hc hd e =
    absurd (omega (arith, top_fed c false hc, top_fed d true hd, ap (λ x. lane x 31) e))

parity_of_odd : (c b : ℕ) → (c + b) % 2 ≡ (if odd_sum c b then 1 else 0)
unfolding odd_sum
parity_of_odd c b = ground (arith, parity_test (bit_xor c b), bit_xor-parity c b)

same_parity :
    (p q : Bool) → p ≡ q → (x y : ℕ) → x ≡ (if p then 1 else 0) → y ≡ (if q then 1 else 0) → x ≡ y
same_parity p q e x y a b = a ∙ ap (λ r. if r then 1 else 0) e ∙ sym b

-- One turn of the inner loop, on one bit of data, loses nothing of the CRC.
bit_injective : (c d b : ℕ) → c < 2 ^ 32 → d < 2 ^ 32 → crc_bit c b ≡ crc_bit d b → c ≡ d
unfolding crc_bit feedback odd_sum
bit_injective c d b hc hd e =
    let f = fed_equal c d (odd_sum c b) (odd_sum d b) hc hd e in
    let parity =
      same_parity (odd_sum c b) (odd_sum d b) f.0 ((c + b) % 2) ((d + b) % 2) (parity_of_odd c b)
        (parity_of_odd d b) in
    omega (arith, f.1, parity)

bits_injective : (n c d b : ℕ) → c < 2 ^ 32 → d < 2 ^ 32 → crc_bits n c b ≡ crc_bits n d b → c ≡ d
unfolding crc_bits
bits_injective zero c d b hc hd e = e
bits_injective (suc n) c d b hc hd e = bit_injective c d b hc hd (
    bits_injective n (crc_bit c b) (crc_bit d b) (b / 2) (crc_bit_below c b hc)
      (crc_bit_below d b hd) e)

block_injective :
    (c d : ℕ) (bytes : List ℕ)
    → c < 2 ^ 32
    → d < 2 ^ 32
    → soft_crc32_block c bytes ≡ soft_crc32_block d bytes
    → c ≡ d
unfolding soft_crc32_block
block_injective c d [] hc hd e = e
block_injective c d (b ∷ bytes) hc hd e = bits_injective 8 c d b hc hd (
    block_injective (crc_bits 8 c b) (crc_bits 8 d b) bytes (crc_bits_below 8 c b hc)
      (crc_bits_below 8 d b hd) e)

-- The data may as well be put into the CRC at once.
one_turn : (c b : ℕ) → crc_bit (bit_xor c b) 0 ≡ bit_xor (crc_bit c b) (b / 2)
unfolding crc_bit
one_turn c b =
    ap (λ x. bit_xor (bit_xor c b / 2) (if nonzero (bit_and x 1) then polynomial else 0))
      (bit_xor-zero (bit_xor c b))
    ∙ ap (λ x. bit_xor x (if nonzero (bit_and (bit_xor c b) 1) then polynomial else 0))
        (bit_xor-half c b)
    ∙ bit_xor-swap (c / 2) (b / 2) (if nonzero (bit_and (bit_xor c b) 1) then polynomial else 0)

at_once : (n c b : ℕ) → b < 2 ^ n → crc_bits n c b ≡ crc_bits n (bit_xor c b) 0
unfolding crc_bits
at_once zero c b h =
    let no_data : b ≡ 0 = omega arith in sym (ap (bit_xor c) no_data ∙ bit_xor-zero c)
at_once (suc n) c b h =
    at_once n (crc_bit c b) (b / 2) (omega (arith, pow-suc 2 n))
    ∙ ap (λ x. crc_bits n x 0) (sym (one_turn c b))

byte_injective :
    (c a b : ℕ) → c < 2 ^ 32 → a < 256 → b < 256 → crc_bits 8 c a ≡ crc_bits 8 c b → a ≡ b
byte_injective c a b hc ha hb e = bit_xor-cancel_left a b c (
    bits_injective 8 (bit_xor c a) (bit_xor c b) 0 (bit_xor-below 32 c a hc (omega arith))
      (bit_xor-below 32 c b hc (omega arith))
      (sym (at_once 8 c a (omega arith)) ∙ e ∙ at_once 8 c b (omega arith)))

-- Two blocks that differ in one byte only, at any place, have different CRCs.
pub one_byte_seen :
    (before after : List ℕ) (a b : ℕ)
    → a < 256
    → b < 256
    → a ≢ b
    → soft_crc32_block crc32_init (before ++ a ∷ after)
      ≢ soft_crc32_block crc32_init (before ++ b ∷ after)
unfolding soft_crc32_block
one_byte_seen before after a b ha hb differ e =
    let c = soft_crc32_block crc32_init before in
    let small = block_below crc32_init before (omega arith) in
    let behind : soft_crc32_block (crc_bits 8 c a) after ≡ soft_crc32_block (crc_bits 8 c b) after =
      sym (block-append crc32_init before (a ∷ after))
      ∙ e
      ∙ block-append crc32_init before (b ∷ after) in
    differ (
      byte_injective c a b small ha hb (
        block_injective (crc_bits 8 c a) (crc_bits 8 c b) after (crc_bits_below 8 c a small)
          (crc_bits_below 8 c b small) behind))
