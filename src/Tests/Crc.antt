-- ===== src/Tests/Crc.antt =====
-- The CRC on concrete inputs.
use pico_cpp.Common.{ℕ, ◌≢◌, ◌≡◌, arith, refl, List, [], ◌∷◌, ◌++◌}
use pico_cpp.SniffCrc.Crc.{crc32_init, soft_crc32_block, with_crc, with_crc_passes}
use pico_cpp.SniffCrc.Detect.{one_byte_seen}

-- The nine digits of the program's buffer.
abbrev digits : List ℕ
digits = 0x31 ∷ 0x32 ∷ 0x33 ∷ 0x34 ∷ 0x35 ∷ 0x36 ∷ 0x37 ∷ 0x38 ∷ 0x39 ∷ []

crc_of_digits : soft_crc32_block crc32_init digits ≡ 0x340bc6d9
unfolding soft_crc32_block
crc_of_digits = refl

with_crc_passes_example : soft_crc32_block crc32_init (with_crc digits) ≡ 0
with_crc_passes_example = with_crc_passes digits

one_byte_seen_example :
    soft_crc32_block crc32_init ((0x31 ∷ []) ++ 0x32 ∷ 0x33 ∷ [])
    ≢ soft_crc32_block crc32_init ((0x31 ∷ []) ++ 0x52 ∷ 0x33 ∷ [])
one_byte_seen_example =
    one_byte_seen (0x31 ∷ []) (0x33 ∷ []) 0x32 0x52 (omega arith) (omega arith) (omega arith)
