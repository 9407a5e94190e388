-- ===== src/Http/Closing.antt =====
-- picow_access_point.c: how the acknowledgements of an answer close its connection.
use pico_cpp.Common.{
  ℕ, ◌+◌, ◌<◌, ◌≡◌, ◌∙◌, refl, ap, arith, List, [], ◌∷◌, Bool, true, false, leb, ltb,
}
use pico_cpp.Common.{if◌then◌else◌, Bool-cases, inl, inr}
use pico_cpp.Http.Server.{Connection, tcp_server_sent, tcp_close_client_connection}

unfoldable pub total : List ℕ → ℕ
total [] = 0
total (n ∷ ns) = n + total ns

-- The acknowledgements in their order: no callback follows once the connection is closed.
unfoldable pub acknowledged : Connection → List ℕ → Bool → Connection
unfolding tcp_server_sent
acknowledged con [] close_ok = con
acknowledged con (len ∷ acks) close_ok =
    let after = (tcp_server_sent con len close_ok).0 in
    let rest = acknowledged after acks close_ok in if after.open_pcb then rest else after

sent_all :
    (con : Connection) (len : ℕ) (close_ok : Bool)
    → leb (con.header_len + con.result_len) (con.sent_len + len) ≡ true
    → (tcp_server_sent con len close_ok).0.open_pcb ≡ false
unfolding tcp_server_sent tcp_close_client_connection
sent_all con len close_ok done = rw (tcp_server_sent, done) refl

sent_some :
    (con : Connection) (len : ℕ) (close_ok : Bool)
    → leb (con.header_len + con.result_len) (con.sent_len + len) ≡ false
    → (tcp_server_sent con len close_ok).0 ≡ record con { sent_len = con.sent_len + len }
unfolding tcp_server_sent
sent_some con len close_ok more = rw (tcp_server_sent, more) refl

-- A connection that is open and whose answer, headers and page, is not yet acknowledged as a whole
-- stays open through any acknowledgements that leave a part of it out, and is closed once they have
-- reached all of it.
pub closes_when_acknowledged :
    (con : Connection) (acks : List ℕ) (close_ok : Bool)
    → con.open_pcb ≡ true
    → con.sent_len < con.header_len + con.result_len
    → (acknowledged con acks close_ok).open_pcb
      ≡ ltb (con.sent_len + total acks) (con.header_len + con.result_len)
unfolding acknowledged total
closes_when_acknowledged con [] close_ok is_open part = is_open ∙ ground arith
closes_when_acknowledged con (len ∷ acks) close_ok is_open part =
    let after = (tcp_server_sent con len close_ok).0 in
    let rest = acknowledged after acks close_ok in
    elim (Bool-cases (leb (con.header_len + con.result_len) (con.sent_len + len))) [
      | inl done ↦
          let closed : after.open_pcb ≡ false = sent_all con len close_ok done in
          ap (λ b. (if b then rest else after).open_pcb) closed ∙ closed ∙ ground arith
      | inr more ↦
          let next : Connection = record con { sent_len = con.sent_len + len } in
          let goes_on : after ≡ next = sent_some con len close_ok more in
          ap (λ c. (if c.open_pcb then acknowledged c acks close_ok else c).open_pcb) goes_on
          ∙ ap (λ b. (if b then acknowledged next acks close_ok else next).open_pcb) is_open
          ∙ closes_when_acknowledged next acks close_ok is_open (ground arith)
          ∙ ap (λ n. ltb n (con.header_len + con.result_len)) (shift con.sent_len len (total acks))
    ]
  where
    shift : (a b c : ℕ) → a + b + c ≡ a + (b + c)
    shift a b c = omega arith
