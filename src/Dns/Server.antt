-- ===== src/Dns/Server.antt =====
-- dnsserver.c: how a query is checked and answered. `dns_msg` is the buffer of `max_dns_msg_size`
-- bytes on the stack and `msg_len` what `pbuf_copy_partial` says it has put in front.
use pico_cpp.Common.{ℕ, zero, suc, ◌+◌, ◌-◌, ◌*◌, List, [], ◌∷◌, Option, none, some, true, false}
use pico_cpp.Common.{
  if◌then◌else◌, ltb, leb, ◌==◌, not, ◌>>>◌, bit_and, length, get_or, take, splice,
}

abbrev pub max_dns_msg_size : ℕ
max_dns_msg_size = 300

-- `overrun` is a write behind the buffer, which C leaves undefined.
pub data Outcome : Type 0 where
  ignored overrun : Outcome
  replied : List ℕ → Outcome

-- `lwip_ntohs` of a field of the header.
unfoldable pub field16 : List ℕ → ℕ → ℕ
field16 dns_msg i = get_or dns_msg i 0 * 256 + get_or dns_msg (i + 1) 0

-- The loop over the labels of the question, with at most `fuel` rounds; `none` is an invalid label.
unfoldable pub walk : ℕ → List ℕ → ℕ → ℕ → Option ℕ
walk zero dns_msg question_ptr_end question_ptr = some question_ptr
walk (suc fuel) dns_msg question_ptr_end question_ptr = elim (ltb question_ptr question_ptr_end) [
  | false ↦ some question_ptr
  | true ↦
      let label_len = get_or dns_msg question_ptr 0 in
      elim (label_len == 0) [
        | true ↦ some (question_ptr + 1)
        | false ↦ elim (ltb 63 label_len) [
          | true ↦ none
          | false ↦ walk fuel dns_msg question_ptr_end (question_ptr + 1 + label_len)
        ]
      ]
]

-- Bytes written through a pointer into the buffer.
unfoldable pub store : List ℕ → ℕ → List ℕ → Option (List ℕ)
store buf i bytes = if leb (i + length bytes) (length buf) then some (splice buf i bytes) else none

-- A pointer to the question, the type and the class, 60 seconds to live, the address.
abbrev pub answer : List ℕ → List ℕ
answer ip = 0xc0 ∷ 12 ∷ 0 ∷ 1 ∷ 0 ∷ 1 ∷ 0 ∷ 0 ∷ 0 ∷ 60 ∷ 0 ∷ 4 ∷ take 4 ip

-- From the flags on: an authoritative response, one question, one answer.
abbrev pub header_tail : List ℕ
header_tail = 0x84 ∷ 0x80 ∷ 0 ∷ 1 ∷ 0 ∷ 1 ∷ 0 ∷ 0 ∷ 0 ∷ 0 ∷ []

-- What is sent is `len` bytes of the buffer.
unfoldable pub dns_socket_sendto : List ℕ → ℕ → Outcome
dns_socket_sendto buf len = replied (take (if ltb 0xffff len then 0xffff else len) buf)

unfoldable pub respond : List ℕ → List ℕ → ℕ → Outcome
unfolding store dns_socket_sendto
respond ip dns_msg answer_ptr = elim (store dns_msg answer_ptr (answer ip)) [
  | none ↦ overrun
  | some m ↦ elim (store m 2 header_tail) [
    | none ↦ overrun
    | some m' ↦ dns_socket_sendto m' (answer_ptr + length (answer ip))
  ]
]

unfoldable pub answer_question : List ℕ → List ℕ → ℕ → Outcome
unfolding walk respond
answer_question ip dns_msg msg_len = elim (walk max_dns_msg_size dns_msg msg_len 12) [
  | none ↦ ignored
  | some question_ptr ↦
      if ltb 255 (question_ptr - 12) then ignored else respond ip dns_msg (question_ptr + 4)
]

unfoldable pub dns_server_process : List ℕ → List ℕ → ℕ → Outcome
unfolding field16 answer_question
dns_server_process ip dns_msg msg_len =
    let flags = field16 dns_msg 2 in
    let question_count = field16 dns_msg 4 in
    if ltb msg_len 12
    then ignored
    else (if not (bit_and (flags >>> 15) 1 == 0)
        then ignored
        else (if not (bit_and (flags >>> 11) 0xf == 0)
            then ignored
            else (if ltb question_count 1 then ignored else answer_question ip dns_msg msg_len)))
