-- ===== src/Dns/Safety.antt =====
-- dnsserver.c: no query makes the server write outside its buffer.
use pico_cpp.Common.{ℕ, zero, suc, ◌+◌, ◌-◌, ◌≤◌, ◌≡◌, inl, inr, refl, ◌∙◌, arith}
use pico_cpp.Common.{List, none, some, false, ltb, ◌==◌, if◌then◌else◌}
use pico_cpp.Common.{
  length, length-take, ◌⊎◌, get_or, take, splice, length-splice, Bool-cases, Option-cases, ◌>>>◌,
  bit_and,
}
use pico_cpp.Dns.Server.{max_dns_msg_size, Outcome, ignored, replied, walk, store, answer}
use pico_cpp.Dns.Server.{
  header_tail, respond, answer_question, dns_server_process, dns_socket_sendto, field16,
}

-- Each round moves the pointer on, so any fuel from the message's length on gives the same.
pub walk_fuel :
    (n m : ℕ) (msg : List ℕ) (last ptr : ℕ)
    → last ≤ n + ptr
    → last ≤ m + ptr
    → walk n msg last ptr ≡ walk m msg last ptr
unfolding walk
walk_fuel zero zero msg last ptr hn hm = refl
walk_fuel zero (suc m) msg last ptr hn hm = ground arith
walk_fuel (suc n) zero msg last ptr hn hm = ground arith
walk_fuel (suc n) (suc m) msg last ptr hn hm =
    let next = walk_fuel n m msg last (ptr + 1 + get_or msg ptr 0) (omega arith) (omega arith) in
    ground arith

pub length-answer : (ip : List ℕ) → length ip ≡ 4 → length (answer ip) ≡ 16
length-answer ip four = omega (arith, length-take 4 ip)

store_fits :
    (buf : List ℕ) (i : ℕ) (bytes : List ℕ)
    → i + length bytes ≤ length buf
    → store buf i bytes ≡ some (splice buf i bytes)
unfolding store
store_fits buf i bytes h = ground arith

-- The buffer with an answer and a header in it.
abbrev pub filled : List ℕ → List ℕ → ℕ → List ℕ
filled ip msg ptr = splice (splice msg ptr (answer ip)) 2 header_tail

pub respond_fits :
    (ip msg : List ℕ) (ptr : ℕ)
    → length msg ≡ max_dns_msg_size
    → length ip ≡ 4
    → ptr + 16 ≤ max_dns_msg_size
    → respond ip msg ptr ≡ replied (take (ptr + 16) (filled ip msg ptr))
unfolding respond dns_socket_sendto
respond_fits ip msg ptr size four fits =
    let n = length-answer ip four in
    let a = store_fits msg ptr (answer ip) (omega (arith, n, size)) in
    let len = length-splice msg ptr (answer ip) (omega (arith, n, size)) in
    let b = store_fits (splice msg ptr (answer ip)) 2 header_tail (omega (arith, len, size)) in
    let short : ltb 0xffff (ptr + length (answer ip)) ≡ false = ground (arith, n) in
    let e : ptr + length (answer ip) ≡ ptr + 16 = omega (arith, n) in
    rw (a, b, short, e, respond, dns_socket_sendto) refl

length-filled :
    (ip msg : List ℕ) (ptr : ℕ)
    → length msg ≡ max_dns_msg_size
    → length ip ≡ 4
    → ptr + 16 ≤ max_dns_msg_size
    → length (filled ip msg ptr) ≡ max_dns_msg_size
length-filled ip msg ptr size four fits =
    let len = length-splice msg ptr (answer ip) (omega (arith, length-answer ip four, size)) in
    length-splice (splice msg ptr (answer ip)) 2 header_tail (omega (arith, len, size)) ∙ len ∙ size

-- Either nothing is sent, or a reply that lies in the buffer.
pub Safe : Outcome → Type 0
Safe o = (o ≡ ignored) ⊎ ((r : List ℕ) × (o ≡ replied r) × (length r ≤ max_dns_msg_size))

module _ (ip msg : List ℕ) (msg_len : ℕ) where
  no_walk : walk max_dns_msg_size msg msg_len 12 ≡ none → answer_question ip msg msg_len ≡ ignored
  unfolding answer_question
  no_walk h = rw (h, answer_question) refl

  pub question_at :
      (q : ℕ)
      → walk max_dns_msg_size msg msg_len 12 ≡ some q
      → answer_question ip msg msg_len
        ≡ (if ltb 255 (q - 12) then ignored else respond ip msg (q + 4))
  unfolding answer_question
  question_at q h = rw (h, answer_question) refl

  answer_question-Safe :
      length msg ≡ max_dns_msg_size → length ip ≡ 4 → Safe (answer_question ip msg msg_len)
  unfolding Safe
  answer_question-Safe size four = elim (Option-cases (walk max_dns_msg_size msg msg_len 12)) [
    | inl e ↦ inl (no_walk e)
    | inr (q, e) ↦ elim (Bool-cases (ltb 255 (q - 12))) [
      | inl far ↦ inl (rw (question_at q e, far) refl)
      | inr near ↦
          let room : q + 4 + 16 ≤ max_dns_msg_size = ground arith in
          inr (
            take (q + 4 + 16) (filled ip msg (q + 4)),
            rw (question_at q e, near) (respond_fits ip msg (q + 4) size four room),
            omega (
              arith,
              length-take (q + 4 + 16) (filled ip msg (q + 4)),
              length-filled ip msg (q + 4) size four room,
            ),
          )
    ]
  ]

  process_cases :
      (dns_server_process ip msg msg_len ≡ ignored)
      ⊎ (dns_server_process ip msg msg_len ≡ answer_question ip msg msg_len)
  unfolding dns_server_process
  process_cases =
      let f = field16 msg 2 in
      elim (Bool-cases (ltb msg_len 12)) [
        | inl e ↦ inl (rw (e, dns_server_process) refl)
        | inr e ↦ elim (Bool-cases (bit_and (f >>> 15) 1 == 0)) [
          | inr e2 ↦ inl (rw (e, e2, dns_server_process) refl)
          | inl e2 ↦ elim (Bool-cases (bit_and (f >>> 11) 0xf == 0)) [
            | inr e3 ↦ inl (rw (e, e2, e3, dns_server_process) refl)
            | inl e3 ↦ elim (Bool-cases (ltb (field16 msg 4) 1)) [
              | inl e4 ↦ inl (rw (e, e2, e3, e4, dns_server_process) refl)
              | inr e4 ↦ inr (rw (e, e2, e3, e4, dns_server_process) refl)
            ]
          ]
        ]
      ]

  -- Whatever a query holds, the server writes only inside its 300-byte buffer: the query is
  -- ignored, or answered with bytes of the buffer. The address has 4 bytes.
  pub dns_server_process-Safe :
      length msg ≡ max_dns_msg_size → length ip ≡ 4 → Safe (dns_server_process ip msg msg_len)
  unfolding Safe
  dns_server_process-Safe size four = elim process_cases [
    | inl e ↦ inl e
    | inr e ↦ rw e (answer_question-Safe size four)
  ]
