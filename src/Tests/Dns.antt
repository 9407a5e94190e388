-- ===== src/Tests/Dns.antt =====
-- dnsserver.c: a query for one name.
use pico_cpp.Common.{ℕ, ◌≡◌, refl, arith, List, [], ◌∷◌, ◌++◌, replicate}
use pico_cpp.Dns.Server.{replied, answer, header_tail, dns_server_process}
use pico_cpp.Dns.Safety.{Safe, dns_server_process-Safe}
use pico_cpp.Dns.Names.{Header, encode, query, dns_server_answers}

abbrev home : List ℕ
home = 192 ∷ 168 ∷ 4 ∷ 1 ∷ []

abbrev name : List (List ℕ)
name = (112 ∷ 105 ∷ 99 ∷ 111 ∷ []) ∷ (110 ∷ 101 ∷ 116 ∷ []) ∷ []

abbrev header : Header
header = record {
  id0 = 7;
  id1 = 8;
  flags0 = 1;
  flags1 = 0;
  questions0 = 0;
  questions1 = 1;
  others = (0, 0, 0, 0, 0, 0);
}

abbrev kind : List ℕ
kind = 0 ∷ 1 ∷ 0 ∷ 1 ∷ []

dns_server_answers_example :
    dns_server_process home (query header name kind (replicate 274 0)) 26
    ≡ replied (7 ∷ 8 ∷ (header_tail ++ ((encode name ++ kind) ++ answer home)))
dns_server_answers_example =
    dns_server_answers home header name kind (replicate 274 0) 26 refl refl refl (omega arith)
      (omega arith)
      (
        record { not_empty = omega arith; short = omega arith },
        (record { not_empty = omega arith; short = omega arith }, tt),
      )
      (omega arith) (omega arith)

dns_server_process-Safe_example :
    Safe (dns_server_process home (query header name kind (replicate 274 255)) 300)
dns_server_process-Safe_example =
    dns_server_process-Safe home (query header name kind (replicate 274 255)) 300 refl refl
