-- ===== src/Tcp/Server.antt =====
-- picow_tcp_server.c: the server of the TCP test, as lwIP calls it back.
use pico_cpp.Common.{same_bytes}
use pico_cpp.Common.{ℕ, ◌+◌, List, [], ◌∷◌, Option, none, some, Bool, true, false, not, leb, ◌==◌}
use pico_cpp.Common.{if◌then◌else◌, replicate}
use pico_cpp.Tcp.Receive.{buf_size, receive, Err, err_ok, err_abrt, err_val, err_other}

abbrev pub test_iterations : ℕ
test_iterations = 10

-- `printed` is what `tcp_server_result` has printed, the latest first: `true` is "test success".
pub record TcpServer : Type 0 where
  pub server_pcb : Option ℕ
  pub client_pcb : Option ℕ
  pub complete : Bool
  pub buffer_sent : List ℕ
  pub buffer_recv : List ℕ
  pub sent_len : ℕ
  pub recv_len : ℕ
  pub run_count : ℕ
  pub printed : List Bool

-- `calloc`, when it has the memory.
abbrev pub tcp_server_init : TcpServer
tcp_server_init = record {
  server_pcb = none;
  client_pcb = none;
  complete = false;
  buffer_sent = replicate buf_size 0;
  buffer_recv = replicate buf_size 0;
  sent_len = 0;
  recv_len = 0;
  run_count = 0;
  printed = [];
}

unfoldable pub is_ok : Err → Bool
is_ok err_ok = true
is_ok err_abrt = false
is_ok err_val = false
is_ok err_other = false

-- What lwIP answers while a callback runs, and the bytes that `rand` gives it.
pub record Answers : Type 0 where
  pub tcp_close : Err
  pub tcp_write : Err
  pub rand : List ℕ

-- A pcb that is closed has lost its callbacks.
unfoldable pub tcp_server_close : TcpServer → Answers → TcpServer × Err
unfolding is_ok
tcp_server_close s a =
    let err : Err = elim s.client_pcb [
      | none ↦ err_ok
      | some pcb ↦ if is_ok a.tcp_close then err_ok else err_abrt
    ] in
    (record s { client_pcb = none; server_pcb = none }, err)

unfoldable pub tcp_server_result : TcpServer → Err → Answers → TcpServer × Err
unfolding tcp_server_close is_ok
tcp_server_result s status a =
    tcp_server_close (record s { complete = true; printed = is_ok status ∷ s.printed }) a

unfoldable pub tcp_server_sent : TcpServer → ℕ → TcpServer × Err
tcp_server_sent s len =
    let s = record s { sent_len = s.sent_len + len } in
    if leb buf_size s.sent_len then (record s { recv_len = 0 }, err_ok) else (s, err_ok)

-- The status -1 is `ERR_MEM`.
unfoldable pub tcp_server_send_data : TcpServer → Answers → TcpServer × Err
unfolding tcp_server_result
tcp_server_send_data s a =
    let s = record s { buffer_sent = a.rand; sent_len = 0 } in
    if is_ok a.tcp_write then (s, err_ok) else tcp_server_result s err_other a

-- The end of `tcp_server_recv`: is the whole buffer back?
unfoldable pub check_echo : TcpServer → Answers → TcpServer × Err
unfolding tcp_server_send_data
check_echo s a =
    if s.recv_len == buf_size
    then (if not (same_bytes s.buffer_sent s.buffer_recv)
        then tcp_server_result s err_other a
        else (let s = record s { run_count = s.run_count + 1 } in
            if leb test_iterations s.run_count
            then ((tcp_server_result s err_ok a).0, err_ok)
            else tcp_server_send_data s a))
    else (s, err_ok)

unfoldable pub tcp_server_recv :
    (List ℕ → ℕ → List ℕ) → TcpServer → Option (List ℕ) → Answers → TcpServer × Err
unfolding check_echo
tcp_server_recv pbuf_copy_partial s none a = tcp_server_result s err_other a
tcp_server_recv pbuf_copy_partial s (some p) a =
    let got = receive pbuf_copy_partial s.buffer_recv s.recv_len p in
    check_echo (record s { buffer_recv = got.0; recv_len = got.1 }) a

unfoldable pub tcp_server_poll : TcpServer → Answers → TcpServer × Err
unfolding tcp_server_result
tcp_server_poll s a = tcp_server_result s err_other a

unfoldable pub tcp_server_err : TcpServer → Err → Answers → TcpServer
unfolding tcp_server_result
tcp_server_err s err_ok a = (tcp_server_result s err_ok a).0
tcp_server_err s err_abrt a = s
tcp_server_err s err_val a = (tcp_server_result s err_val a).0
tcp_server_err s err_other a = (tcp_server_result s err_other a).0

unfoldable pub tcp_server_accept : TcpServer → Option ℕ → Err → Answers → TcpServer × Err
unfolding tcp_server_send_data
tcp_server_accept s none err a = ((tcp_server_result s err a).0, err_val)
tcp_server_accept s (some client_pcb) err a =
    if not (is_ok err)
    then ((tcp_server_result s err a).0, err_val)
    else tcp_server_send_data (record s { client_pcb = some client_pcb }) a

-- What lwIP gives when the server opens: a new pcb, the result of the bind, a listening pcb.
unfoldable pub tcp_server_open : TcpServer → Option ℕ → Err → Option ℕ → TcpServer × Bool
tcp_server_open s none bind listen = (s, false)
tcp_server_open s (some pcb) bind listen = if not (is_ok bind) then (s, false) else elim listen [
  | none ↦ (record s { server_pcb = none }, false)
  | some listening ↦ (record s { server_pcb = some listening }, true)
]
