-- ===== src/Dns/Names.antt =====
-- dnsserver.c: what a query for a name is answered with.
use pico_cpp.Common.{
  ℕ, zero, suc, ◌+◌, ◌-◌, ◌*◌, ◌<◌, ◌≤◌, ◌≡◌, refl, ap, sym, ◌∙◌, arith, eq_below,
}
use pico_cpp.Common.{List, [], ◌∷◌, ◌++◌, some, false, ltb, if◌then◌else◌, All, all_below}
use pico_cpp.Common.{
  length, length-append, get_or, take, drop, splice, take-append_self, ◌>>>◌, bit_and,
}
use pico_cpp.Dns.Server.{max_dns_msg_size, replied, ignored, walk, answer, header_tail, field16}
use pico_cpp.Dns.Server.{respond, answer_question, dns_server_process}
use pico_cpp.Dns.Safety.{respond_fits, question_at, filled, length-answer}
use mathlib.Core.List.{append_assoc}

-- A name as RFC 1035 encodes it: its labels behind their lengths, then a zero.
abbrev pub encode : List (List ℕ) → List ℕ
encode [] = 0 ∷ []
encode (l ∷ ls) = length l ∷ (l ++ encode ls)

-- A label has 1 to 63 bytes.
pub record IsLabel (l : List ℕ) : Type 0 where
  pub not_empty : 0 < length l
  pub short : length l ≤ 63

get_or-append : (pre : List ℕ) (x : ℕ) (xs : List ℕ) → get_or (pre ++ (x ∷ xs)) (length pre) 0 ≡ x
get_or-append [] x xs = refl
get_or-append (p ∷ pre) x xs = get_or-append pre x xs

walk_end :
    (n : ℕ) (msg : List ℕ) (last ptr : ℕ)
    → ptr < last
    → get_or msg ptr 0 ≡ 0
    → walk (suc n) msg last ptr ≡ some (ptr + 1)
unfolding walk
walk_end n msg last ptr h e = ground arith

walk_label :
    (n : ℕ) (msg : List ℕ) (last ptr len : ℕ)
    → ptr < last
    → get_or msg ptr 0 ≡ len
    → 0 < len
    → len ≤ 63
    → walk (suc n) msg last ptr ≡ walk n msg last (ptr + 1 + len)
unfolding walk
walk_label n msg last ptr len h e low high = ground arith

walk-encode :
    (ls : List (List ℕ)) (n : ℕ) (pre post : List ℕ) (last : ℕ)
    → All IsLabel ls
    → length (encode ls) ≤ n
    → length pre + length (encode ls) ≤ last
    → walk n (pre ++ (encode ls ++ post)) last (length pre) ≡ some (length pre + length (encode ls))
walk-encode [] zero pre post last ok fuel room = absurd (omega arith)
walk-encode (l ∷ ls) zero pre post last ok fuel room = absurd (omega arith)
walk-encode [] (suc n) pre post last ok fuel room =
    walk_end n _ last (length pre) (omega arith) (get_or-append pre 0 post)
walk-encode (l ∷ ls) (suc n) pre post last ok fuel room =
    let pre' : List ℕ = pre ++ (length l ∷ l) in
    let msg : List ℕ = pre ++ (length l ∷ ((l ++ encode ls) ++ post)) in
    let len : length pre' ≡ length pre + 1 + length l =
      omega (arith, length-append pre (length l ∷ l)) in
    let same : pre' ++ (encode ls ++ post) ≡ msg =
      append_assoc pre (length l ∷ l) (encode ls ++ post)
      ∙ ap (λ t. pre ++ (length l ∷ t)) (sym (append_assoc l (encode ls) post)) in
    let total = length-append l (encode ls) in
    let rest =
      walk-encode ls n pre' post last ok.1 (omega (arith, total)) (omega (arith, total, len)) in
    let end : length pre' + length (encode ls) ≡ length pre + length (encode (l ∷ ls)) =
      omega (arith, total, len) in
    walk_label n msg last (length pre) (length l) (omega arith) (get_or-append pre (length l) _)
      ok.0.not_empty ok.0.short
    ∙ ap (λ k. walk n msg last k) (sym len)
    ∙ ap (λ m. walk n m last (length pre')) (sym same)
    ∙ rest
    ∙ ap some end

-- The two header bytes of a standard query: no response, opcode 0.
standard_response : (f : ℕ) → f < 2048 → bit_and (f >>> 15) 1 ≡ 0
unfolding all_below
standard_response f h = eq_below 2048 (λ x. bit_and (x >>> 15) 1) (λ x. 0) refl f h

standard_opcode : (f : ℕ) → f < 2048 → bit_and (f >>> 11) 0xf ≡ 0
unfolding all_below
standard_opcode f h = eq_below 2048 (λ x. bit_and (x >>> 11) 0xf) (λ x. 0) refl f h

process_standard :
    (ip msg : List ℕ) (msg_len : ℕ)
    → 12 ≤ msg_len
    → field16 msg 2 < 2048
    → 1 ≤ field16 msg 4
    → dns_server_process ip msg msg_len ≡ answer_question ip msg msg_len
unfolding dns_server_process
process_standard ip msg msg_len long flags count =
    let a : ltb msg_len 12 ≡ false = ground arith in
    let b = standard_response (field16 msg 2) flags in
    let c = standard_opcode (field16 msg 2) flags in
    let d : ltb (field16 msg 4) 1 ≡ false = ground arith in rw (a, b, c, d, dns_server_process) refl

-- A question, the answer behind it, and the header over the front.
take-filled :
    (h0 h1 h2 h3 h4 h5 h6 h7 h8 h9 h10 h11 : ℕ) (body rest ip : List ℕ) (ptr : ℕ)
    → length ip ≡ 4
    → ptr ≡ 12 + length body
    → take (ptr + 16) (
        filled ip
          (h0 ∷ h1 ∷ h2 ∷ h3 ∷ h4 ∷ h5 ∷ h6 ∷ h7 ∷ h8 ∷ h9 ∷ h10 ∷ h11 ∷ (body ++ rest))
          ptr)
      ≡ h0 ∷ h1 ∷ (header_tail ++ (body ++ answer ip))
take-filled h0 h1 h2 h3 h4 h5 h6 h7 h8 h9 h10 h11 body rest ip ptr four e =
    let front : List ℕ = h0 ∷ h1 ∷ h2 ∷ h3 ∷ h4 ∷ h5 ∷ h6 ∷ h7 ∷ h8 ∷ h9 ∷ h10 ∷ h11 ∷ body in
    let cut : take ptr (front ++ rest) ≡ front =
      take-append_self ptr front rest (omega (arith, e)) in
    let x : List ℕ = drop (ptr + length (answer ip)) (front ++ rest) in
    let whole : List ℕ = h0 ∷ h1 ∷ (header_tail ++ (body ++ answer ip)) in
    let joined : h0 ∷ h1 ∷ (header_tail ++ (body ++ (answer ip ++ x))) ≡ whole ++ x =
      ap (λ t. h0 ∷ h1 ∷ (header_tail ++ t)) (sym (append_assoc body (answer ip) x)) in
    ap (λ t. take (ptr + 16) (splice (t ++ (answer ip ++ x)) 2 header_tail)) cut
    ∙ ap (take (ptr + 16)) joined
    ∙ take-append_self (ptr + 16) whole x
        (omega (arith, length-append body (answer ip), length-answer ip four, e))

-- A query's header: its id, its flags, its count of questions and its other three counts.
pub record Header : Type 0 where
  pub id0 : ℕ
  pub id1 : ℕ
  pub flags0 : ℕ
  pub flags1 : ℕ
  pub questions0 : ℕ
  pub questions1 : ℕ
  pub others : ℕ × ℕ × ℕ × ℕ × ℕ × ℕ

-- The buffer with a query in front: header, name, type and class, and what is behind them.
abbrev pub query : Header → List (List ℕ) → List ℕ → List ℕ → List ℕ
query h name kind rest =
    let (a, b, c, d, e, f) = h.others in
    h.id0
    ∷ h.id1
    ∷ h.flags0
    ∷ h.flags1
    ∷ h.questions0
    ∷ h.questions1
    ∷ a
    ∷ b
    ∷ c
    ∷ d
    ∷ e
    ∷ f
    ∷ ((encode name ++ kind) ++ rest)

-- A standard query for a name gets the access point's address, whatever the name: the reply keeps
-- the id and the question, its header says that it is a response with one question and one
-- answer, and the answer points to the name and holds the address. The query is no response and
-- has opcode 0 and at least one question; labels have 1 to 63 bytes and the encoded name at most
-- 255, all of it received; `kind` is the 4 bytes of its type and class, and the buffer has its 300
-- bytes, the address 4.
pub dns_server_answers :
    (ip : List ℕ) (h : Header) (name : List (List ℕ)) (kind rest : List ℕ) (msg_len : ℕ)
    → length ip ≡ 4
    → length kind ≡ 4
    → length (query h name kind rest) ≡ max_dns_msg_size
    → h.flags0 * 256 + h.flags1 < 2048
    → 1 ≤ h.questions0 * 256 + h.questions1
    → All IsLabel name
    → length (encode name) ≤ 255
    → 12 + length (encode name) ≤ msg_len
    → dns_server_process ip (query h name kind rest) msg_len
      ≡ replied (h.id0 ∷ h.id1 ∷ (header_tail ++ ((encode name ++ kind) ++ answer ip)))
unfolding field16
dns_server_answers ip h name kind rest msg_len four four_k size flags count labels short got =
    let (a, b, c, d, e, f) = h.others in
    let msg : List ℕ = query h name kind rest in
    let front : List ℕ =
      h.id0 ∷ h.id1 ∷ h.flags0 ∷ h.flags1 ∷ h.questions0 ∷ h.questions1 ∷ a ∷ b ∷ c ∷ d ∷ e ∷ f
      ∷ [] in
    let n : ℕ = length (encode name) in
    let w : walk max_dns_msg_size msg msg_len 12 ≡ some (12 + n) =
      ap (λ t. walk max_dns_msg_size (front ++ t) msg_len 12) (append_assoc (encode name) kind rest)
      ∙ walk-encode name max_dns_msg_size front (kind ++ rest) msg_len labels (omega arith) got in
    let near : ltb 255 (12 + n - 12) ≡ false = ground arith in
    let body = length-append (encode name) kind in
    process_standard ip msg msg_len (omega arith) flags count
    ∙ question_at ip msg msg_len (12 + n) w
    ∙ ap (λ t. if t then ignored else respond ip msg (12 + n + 4)) near
    ∙ respond_fits ip msg (12 + n + 4) size four (omega arith)
    ∙ ap replied (
        take-filled h.id0 h.id1 h.flags0 h.flags1 h.questions0 h.questions1 a b c d e f
          (encode name ++ kind) rest ip (12 + n + 4) four (omega (arith, body, four_k)))
