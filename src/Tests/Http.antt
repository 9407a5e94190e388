-- ===== src/Tests/Http.antt =====
-- The access point's page on a concrete request.
use pico_cpp.Common.{
  ℕ, ◌≡◌, refl, arith, List, [], ◌∷◌, Option, some, none, true, false, length, take,
}
use pico_cpp.Common.{◌==◌, if◌then◌else◌}
use pico_cpp.Http.Server.{Connection, err_ok, page, response_headers, tcp_server_recv}
use pico_cpp.Http.Page.{led_switched, led_packet}
use pico_cpp.Http.Server.{fresh, err_val}
use pico_cpp.Http.Callbacks.{tcp_server_accept}
use pico_cpp.Http.Closing.{acknowledged, closes_when_acknowledged}

-- "led=1".
abbrev led_on : List ℕ
led_on = 108 ∷ 101 ∷ 100 ∷ 61 ∷ 49 ∷ []

-- The digit behind "led=".
unfoldable read_led : List ℕ → Option ℕ
read_led (l ∷ e ∷ d ∷ eq ∷ digit ∷ []) = if digit == 49 then some 1 else some 0
read_led _ = none

read_on : read_led led_on ≡ some 1
unfolding read_led
read_on = refl

led_switched_example :
    (con : Connection) × (tcp_server_recv
        (λ payload n. take n payload)
        read_led
        []
        (fresh false)
        (some (led_packet led_on []))
        err_ok
        err_ok
        true
      ≡ (con, err_ok))
    × (con.led ≡ true)
    × (con.written ≡ page true ∷ response_headers (length (page true)) ∷ [])
    × (con.open_pcb ≡ true)
led_switched_example =
    led_switched read_led [] led_on [] 1 false true
      (omega arith, (omega arith, (omega arith, (omega arith, (omega arith, tt)))))
      (omega arith, (omega arith, (omega arith, (omega arith, (omega arith, tt))))) tt read_on
      (λ payload n. take n payload) (λ payload n. refl) (omega arith)

-- A connection with 5 bytes of headers and a page of 3.
abbrev answered : Connection
answered = record (fresh true) { header_len = 5; result_len = 3 }

closes_when_acknowledged_example : (acknowledged answered (4 ∷ 4 ∷ []) true).open_pcb ≡ false
unfolding pico_cpp.Http.Closing.total
closes_when_acknowledged_example =
    closes_when_acknowledged answered (4 ∷ 4 ∷ []) true refl (omega arith)

accepted : tcp_server_accept err_ok true true false ≡ (some (fresh false), err_ok)
unfolding tcp_server_accept
accepted = refl

not_accepted : tcp_server_accept err_ok false true false ≡ (none, err_val)
unfolding tcp_server_accept
not_accepted = refl
