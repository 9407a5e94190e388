-- ===== src/Nec.antt =====
-- pio/ir_nec: the frames of the NEC infrared protocol, nec_transmit_library/nec_transmit.c and
-- nec_receive_library/nec_receive.c.
use pico_cpp.Common.{ℕ, ◌+◌, ◌-◌, ◌*◌, ◌^◌, ◌<◌, ◌≡◌, refl, ap, sym, ◌∙◌, arith, Option, none, some}
use pico_cpp.Common.{false, ◌&&◌, ◌||◌, if◌then◌else◌, not, ◌==◌, Bool-cases, inl, inr}
use pico_cpp.Common.{
  u8, u32, ◌<<<◌, ◌>>>◌, bit_or, bit_xor, bit_or-disjoint_lo, all_below, eq_below,
}

unfoldable pub nec_encode_frame : ℕ → ℕ → ℕ
nec_encode_frame address payload = u32 (
    bit_or (bit_or (bit_or address (bit_xor address 0xff <<< 8)) (payload <<< 16))
      (bit_xor payload 0xff <<< 24))

-- The four fields of the union are the frame's bytes, lowest first.
unfoldable pub nec_decode_frame : ℕ → Option (ℕ × ℕ)
nec_decode_frame frame =
    let address = u8 frame in
    let inverted_address = u8 (frame >>> 8) in
    let payload = u8 (frame >>> 16) in
    let inverted_payload = u8 (frame >>> 24) in
    if not (address == bit_xor inverted_address 0xff)
      || not (payload == bit_xor inverted_payload 0xff)
    then none
    else some (address, payload)

inverted : (b : ℕ) → b < 256 → bit_xor b 0xff ≡ 255 - b
unfolding all_below
inverted b h = eq_below 256 (λ x. bit_xor x 0xff) (λ x. 255 - x) refl b h

-- The bytes of a frame, as a number.
encode_sum :
    (address payload : ℕ)
    → address < 256
    → payload < 256
    → nec_encode_frame address payload
      ≡ address + (255 - address) * 2 ^ 8 + payload * 2 ^ 16 + (255 - payload) * 2 ^ 24
unfolding nec_encode_frame
encode_sum address payload ha hp =
    let a = inverted address ha in
    let p = inverted payload hp in
    let one = bit_or-disjoint_lo 8 address (255 - address) (omega arith) in
    let two = bit_or-disjoint_lo 16 (address + (255 - address) * 2 ^ 8) payload (omega arith) in
    let three =
      bit_or-disjoint_lo 24 (address + (255 - address) * 2 ^ 8 + payload * 2 ^ 16) (255 - payload)
        (omega arith) in
    rw (a, p, one, two, three) (omega arith)

decode_accepts :
    (frame : ℕ)
    → u8 frame ≡ 255 - u8 (frame >>> 8)
    → u8 (frame >>> 16) ≡ 255 - u8 (frame >>> 24)
    → nec_decode_frame frame ≡ some (u8 frame, u8 (frame >>> 16))
unfolding nec_decode_frame
decode_accepts frame a p =
    let ia = inverted (u8 (frame >>> 8)) (omega arith) in
    let ip = inverted (u8 (frame >>> 24)) (omega arith) in ground arith

decode_rejects :
    (frame : ℕ)
    → (u8 frame == 255 - u8 (frame >>> 8)) && (u8 (frame >>> 16) == 255 - u8 (frame >>> 24)) ≡ false
    → nec_decode_frame frame ≡ none
unfolding nec_decode_frame
decode_rejects frame h =
    let ia = inverted (u8 (frame >>> 8)) (omega arith) in
    let ip = inverted (u8 (frame >>> 24)) (omega arith) in ground arith

-- Only the frames that the encoder makes are accepted: a 32-bit frame that is decoded is the frame
-- of the address and the data it gives.
pub encode-decode :
    (frame address payload : ℕ)
    → frame < 2 ^ 32
    → nec_decode_frame frame ≡ some (address, payload)
    → frame ≡ nec_encode_frame address payload
encode-decode frame address payload h e =
    elim (Bool-cases
      ((u8 frame == 255 - u8 (frame >>> 8)) && (u8 (frame >>> 16) == 255 - u8 (frame >>> 24)))) [
        | inr bad ↦ cc (decode_rejects frame bad, e)
        | inl good ↦
            let a : u8 frame ≡ 255 - u8 (frame >>> 8) = ground arith in
            let p : u8 (frame >>> 16) ≡ 255 - u8 (frame >>> 24) = ground arith in
            let both : some (u8 frame, u8 (frame >>> 16)) ≡ some (address, payload) =
              sym (decode_accepts frame a p) ∙ e in
            let is_a : u8 frame ≡ address = cc both in
            let is_p : u8 (frame >>> 16) ≡ payload = cc both in
            omega (arith, encode_sum address payload (omega arith) (omega arith))
      ]

-- A frame that has been encoded is decoded to its address and data, bytes both.
pub decode-encode :
    (address payload : ℕ)
    → address < 256
    → payload < 256
    → nec_decode_frame (nec_encode_frame address payload) ≡ some (address, payload)
decode-encode address payload ha hp =
    let s = address + (255 - address) * 2 ^ 8 + payload * 2 ^ 16 + (255 - payload) * 2 ^ 24 in
    let lo : u8 s ≡ address = omega arith in
    let hi : u8 (s >>> 16) ≡ payload = omega arith in
    ap nec_decode_frame (encode_sum address payload ha hp)
    ∙ decode_accepts s (omega arith) (omega arith)
    ∙ (λ i. some (lo i, hi i))
