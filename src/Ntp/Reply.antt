-- ===== src/Ntp/Reply.antt =====
-- picow_ntp_client.c: the time that is read out of a server's packet.
use pico_cpp.Common.{ℕ, ◌+◌, ◌*◌, ◌%◌, ◌^◌, ◌<◌, ◌≡◌, ◌≢◌, ◌∙◌, refl, ap, arith}
use pico_cpp.Common.{List, [], ◌∷◌, none, some, true, false, Bool-cases, inl, inr}
use pico_cpp.Common.{u8, u32, sub32, ◌<<<◌, ◌>>>◌, bit_or, bit_or-disjoint, bit_and, bit_and_low}
use pico_cpp.Common.{length, take, drop, get_or, ◌==◌, ◌&&◌}
use pico_cpp.Common.{is_positive}
use pico_cpp.Ntp.Client.{Sdk, Ntp, ntp_recv, is_reply, seconds_since_1900, ntp_result}

-- What lwIP documents of its packets: the byte at an offset, and the copy of a part, that are inside.
pub record Reads (sdk : Sdk) : Type 0 where
  pub at : (p : List ℕ) (i : ℕ) → i < length p → sdk.pbuf_get_at p i ≡ get_or p i 0
  pub copies :
      (p : List ℕ) (len offset : ℕ)
      → offset + len < length p + 1
      → sdk.pbuf_copy_partial p len offset ≡ take len (drop offset p)

-- The four bytes of a word on the network, the highest first.
abbrev pub be32 : ℕ → List ℕ
be32 w = u8 (w >>> 24) ∷ u8 (w >>> 16) ∷ u8 (w >>> 8) ∷ u8 w ∷ []

joined :
    (a b c d : ℕ)
    → a < 256
    → b < 256
    → c < 256
    → d < 256
    → bit_or (bit_or (bit_or (a <<< 24) (b <<< 16)) (c <<< 8)) d
      ≡ a * 2 ^ 24 + b * 2 ^ 16 + c * 2 ^ 8 + d
joined a b c d ha hb hc hd =
    let one = bit_or-disjoint 24 a (b * 2 ^ 16) (omega arith) in
    let group₁ : a * 2 ^ 24 + b * 2 ^ 16 ≡ (a * 2 ^ 8 + b) * 2 ^ 16 = omega arith in
    let two = bit_or-disjoint 16 (a * 2 ^ 8 + b) (c * 2 ^ 8) (omega arith) in
    let group₂ : (a * 2 ^ 8 + b) * 2 ^ 16 + c * 2 ^ 8 ≡ ((a * 2 ^ 8 + b) * 2 ^ 8 + c) * 2 ^ 8 =
      omega arith in
    let three = bit_or-disjoint 8 ((a * 2 ^ 8 + b) * 2 ^ 8 + c) d (omega arith) in
    ap (λ x. bit_or (bit_or x (c <<< 8)) d) (one ∙ group₁)
    ∙ ap (λ x. bit_or x d) (two ∙ group₂)
    ∙ three
    ∙ omega arith

module _ (sdk : Sdk) (reads : Reads sdk) where
  seconds_lem :
      (p : List ℕ) (w : ℕ)
      → length p ≡ 48
      → w < 2 ^ 32
      → take 4 (drop 40 p) ≡ be32 w
      → seconds_since_1900 sdk p ≡ w
  unfolding seconds_since_1900
  seconds_lem p w size small bytes =
      let copied : sdk.pbuf_copy_partial p 4 40 ≡ be32 w =
        reads.copies p 4 40 (omega (arith, size)) ∙ bytes in
      let value =
        joined (u8 (w >>> 24)) (u8 (w >>> 16)) (u8 (w >>> 8)) (u8 w) (omega arith) (omega arith)
          (omega arith) (omega arith) in
      rw (seconds_since_1900, copied) (omega (arith, value))

  pub accepted :
      (s : Ntp) (p : List ℕ) (addr port : ℕ)
      → addr ≡ s.ntp_server_address
      → port ≡ 123
      → length p ≡ 48
      → get_or p 0 0 % 8 ≡ 4
      → get_or p 1 0 ≢ 0
      → is_reply sdk s p addr port ≡ true
  unfolding is_reply
  accepted s p addr port from at_port size mode stratum =
      let first : sdk.pbuf_get_at p 0 ≡ get_or p 0 0 = reads.at p 0 (omega (arith, size)) in
      let second : sdk.pbuf_get_at p 1 ≡ get_or p 1 0 = reads.at p 1 (omega (arith, size)) in
      let low : bit_and (get_or p 0 0) 7 ≡ 4 = bit_and_low 3 (get_or p 0 0) ∙ mode in
      rw (is_reply, first, second, low) (ground arith)

  result_times : (s : Ntp) (now t : ℕ) → (ntp_result sdk s now (some t)).times ≡ t ∷ s.times
  unfolding ntp_result
  result_times s now t = elim (Bool-cases (is_positive s.ntp_resend_alarm)) [
    | inl on ↦ rw (ntp_result, on) refl
    | inr off ↦ rw (ntp_result, off) refl
  ]

  -- A server's answer of 48 bytes that carries the time `t`, in seconds since 1970, as the seconds
  -- since 1900 that fit in 32 bits, gives `t`, also when those seconds have wrapped.
  pub reply_time :
      (s : Ntp) (now : ℕ) (p : List ℕ) (t : ℕ)
      → length p ≡ 48
      → get_or p 0 0 % 8 ≡ 4
      → get_or p 1 0 ≢ 0
      → t < 2 ^ 32
      → take 4 (drop 40 p) ≡ be32 (u32 (t + 2208988800))
      → (ntp_recv sdk s now p s.ntp_server_address 123).times ≡ t ∷ s.times
  unfolding ntp_recv
  reply_time s now p t size mode stratum small bytes =
      let good = accepted s p s.ntp_server_address 123 refl refl size mode stratum in
      let seconds = seconds_lem p (u32 (t + 2208988800)) size (omega arith) bytes in
      let time : sub32 (seconds_since_1900 sdk p) 2208988800 ≡ t = omega (arith, seconds) in
      rw (ntp_recv, good, time) (result_times s now t)

module _ (sdk : Sdk) where
  refused_times : (s : Ntp) (now : ℕ) → (ntp_result sdk s now none).times ≡ s.times
  unfolding ntp_result
  refused_times s now = elim (Bool-cases (is_positive s.ntp_resend_alarm)) [
    | inl on ↦ rw (ntp_result, on) refl
    | inr off ↦ rw (ntp_result, off) refl
  ]

  -- A packet that comes from another address or port, or is not 48 bytes long, never gives a time,
  -- but it ends the request that is under way.
  pub stray_packet :
      (s : Ntp) (now : ℕ) (p : List ℕ) (addr port : ℕ)
      → (addr == s.ntp_server_address) && (port == 123) && (length p == 48) ≡ false
      → ((ntp_recv sdk s now p addr port).times ≡ s.times)
        × ((ntp_recv sdk s now p addr port).dns_request_sent ≡ false)
  unfolding ntp_recv is_reply ntp_result
  stray_packet s now p addr port stray =
      let bad : is_reply sdk s p addr port ≡ false = ground arith in
      (rw (ntp_recv, bad) (refused_times s now), rw (ntp_recv, bad) refl)
