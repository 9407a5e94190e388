-- ===== src/Tcp/Client.antt =====
-- picow_tcp_client.c: the client of the TCP test, as lwIP calls it back.
use pico_cpp.Common.{ℕ, ◌+◌, List, [], ◌∷◌, Option, none, some, Bool, true, false, not, leb, ◌==◌}
use pico_cpp.Common.{if◌then◌else◌, replicate}
use pico_cpp.Tcp.Receive.{buf_size, receive, Err, err_ok, err_abrt, err_val, err_other}
use pico_cpp.Tcp.Server.{is_ok, test_iterations}

-- `written` is what `tcp_write` has been given, the latest first; `printed` is what `tcp_result`
-- has printed, the latest first: `true` is "test success".
pub record TcpClient : Type 0 where
  pub tcp_pcb : Option ℕ
  pub buffer : List ℕ
  pub buffer_len : ℕ
  pub sent_len : ℕ
  pub complete : Bool
  pub run_count : ℕ
  pub connected : Bool
  pub written : List (List ℕ)
  pub printed : List Bool

-- `calloc`, when it has the memory.
abbrev pub tcp_client_init : TcpClient
tcp_client_init = record {
  tcp_pcb = none;
  buffer = replicate buf_size 0;
  buffer_len = 0;
  sent_len = 0;
  complete = false;
  run_count = 0;
  connected = false;
  written = [];
  printed = [];
}

-- `close_err` is what `tcp_close` returns, `write_err` what `tcp_write` returns.
unfoldable pub tcp_client_close : TcpClient → Err → TcpClient × Err
unfolding is_ok
tcp_client_close s close_err = elim s.tcp_pcb [
  | none ↦ (s, err_ok)
  | some pcb ↦ (record s { tcp_pcb = none }, if is_ok close_err then err_ok else err_abrt)
]

unfoldable pub tcp_result : TcpClient → Err → Err → TcpClient × Err
unfolding tcp_client_close is_ok
tcp_result s status close_err =
    tcp_client_close (record s { complete = true; printed = is_ok status ∷ s.printed }) close_err

unfoldable pub tcp_client_sent : TcpClient → ℕ → Err → TcpClient × Err
unfolding tcp_result
tcp_client_sent s len close_err =
    let s = record s { sent_len = s.sent_len + len } in
    if leb buf_size s.sent_len
    then (let s = record s { run_count = s.run_count + 1 } in
        if leb test_iterations s.run_count
        then ((tcp_result s err_ok close_err).0, err_ok)
        else (record s { buffer_len = 0; sent_len = 0 }, err_ok))
    else (s, err_ok)

unfoldable pub tcp_client_connected : TcpClient → Err → Err → TcpClient × Err
unfolding tcp_result
tcp_client_connected s err close_err =
    if not (is_ok err) then tcp_result s err close_err else (record s { connected = true }, err_ok)

unfoldable pub tcp_client_poll : TcpClient → Err → TcpClient × Err
unfolding tcp_result
tcp_client_poll s close_err = tcp_result s err_other close_err

unfoldable pub tcp_client_err : TcpClient → Err → Err → TcpClient
unfolding tcp_result
tcp_client_err s err_ok close_err = (tcp_result s err_ok close_err).0
tcp_client_err s err_abrt close_err = s
tcp_client_err s err_val close_err = (tcp_result s err_val close_err).0
tcp_client_err s err_other close_err = (tcp_result s err_other close_err).0

-- The end of `tcp_client_recv`: a whole buffer is sent back.
unfoldable pub send_back : TcpClient → Err → Err → TcpClient × Err
unfolding tcp_result
send_back s write_err close_err =
    if s.buffer_len == buf_size
    then (let s = record s { written = s.buffer ∷ s.written } in
        if not (is_ok write_err) then tcp_result s err_other close_err else (s, err_ok))
    else (s, err_ok)

unfoldable pub tcp_client_recv :
    (List ℕ → ℕ → List ℕ) → TcpClient → Option (List ℕ) → Err → Err → TcpClient × Err
unfolding send_back
tcp_client_recv pbuf_copy_partial s none write_err close_err = tcp_result s err_other close_err
tcp_client_recv pbuf_copy_partial s (some p) write_err close_err =
    let got = receive pbuf_copy_partial s.buffer s.buffer_len p in
    send_back (record s { buffer = got.0; buffer_len = got.1 }) write_err close_err

-- `pcb` is what `tcp_new_ip_type` gives, `connect_err` what `tcp_connect` returns.
unfoldable pub tcp_client_open : TcpClient → Option ℕ → Err → TcpClient × Bool
tcp_client_open s none connect_err = (record s { tcp_pcb = none }, false)
tcp_client_open s (some pcb) connect_err =
    (record s { tcp_pcb = some pcb; buffer_len = 0 }, is_ok connect_err)
