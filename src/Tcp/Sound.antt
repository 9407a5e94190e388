-- ===== src/Tcp/Sound.antt =====
-- picow_tcp_server.c: what holds between callbacks, in every order of them.
use pico_cpp.Common.{ℕ, ◌+◌, ◌≤◌, ◌≡◌, inl, inr, refl, arith, List, Option, none, some}
use pico_cpp.Common.{true, false, leb, length, length-replicate, Bool-cases}
use pico_cpp.Tcp.Receive.{buf_size, receive, receive_bounded, CopiesFront, Err, err_ok, err_abrt}
use pico_cpp.Tcp.Receive.{err_val, err_other}
use pico_cpp.Tcp.Server.{TcpServer, Answers, tcp_server_init, tcp_server_open, tcp_server_accept}
use pico_cpp.Tcp.Server.{tcp_server_recv, tcp_server_sent, tcp_server_poll, tcp_server_err}
use pico_cpp.Tcp.Server.{tcp_server_result, tcp_server_send_data, is_ok}
use pico_cpp.Tcp.Events.{
  any, Reachable, opened, accepts, fails_to_accept, receives, acknowledged, polls, errs,
}
use pico_cpp.Tcp.Events.{Sound, result-Sound, send_data-Sound, check_echo-Sound}

fresh : Option ℕ → TcpServer
fresh server_pcb = record tcp_server_init { server_pcb = server_pcb }

fresh-Sound : (server_pcb : Option ℕ) → Sound (fresh server_pcb)
unfolding any fresh
fresh-Sound server_pcb = record {
  sent_size = length-replicate {A = ℕ} buf_size 0;
  recv_size = length-replicate {A = ℕ} buf_size 0;
  in_bounds = omega arith;
  no_client = λ c. refl;
  no_server = λ c. absurd (cc c);
  earned = λ c. absurd (cc c);
}

open-Sound :
    (pcb : Option ℕ) (bind : Err) (listen : Option ℕ)
    → Sound (tcp_server_open tcp_server_init pcb bind listen).0
unfolding tcp_server_open fresh
open-Sound none bind listen = fresh-Sound none
open-Sound (some pcb) bind none = elim (Bool-cases (is_ok bind)) [
  | inl e ↦ rw e (fresh-Sound none)
  | inr e ↦ rw e (fresh-Sound none)
]
open-Sound (some pcb) bind (some listening) = elim (Bool-cases (is_ok bind)) [
  | inl e ↦ rw e (fresh-Sound (some listening))
  | inr e ↦ rw e (fresh-Sound none)
]

accept_taken :
    (s : TcpServer) (pcb : ℕ) (err : Err) (a : Answers)
    → is_ok err ≡ true
    → tcp_server_accept s (some pcb) err a
      ≡ tcp_server_send_data (record s { client_pcb = some pcb }) a
unfolding tcp_server_accept
accept_taken s pcb err a e = rw e refl

accept_refused :
    (s : TcpServer) (pcb : ℕ) (err : Err) (a : Answers)
    → is_ok err ≡ false
    → tcp_server_accept s (some pcb) err a ≡ ((tcp_server_result s err a).0, err_val)
unfolding tcp_server_accept
accept_refused s pcb err a e = ground arith

accept-Sound :
    (s : TcpServer) (listening pcb : ℕ) (err : Err) (a : Answers)
    → Sound s
    → s.server_pcb ≡ some listening
    → length a.rand ≡ buf_size
    → Sound (tcp_server_accept s (some pcb) err a).0
accept-Sound s listening pcb err a h opn len =
    let s' : TcpServer = record s { client_pcb = some pcb } in
    let h' : Sound s' = record {
      sent_size = h.sent_size;
      recv_size = h.recv_size;
      in_bounds = h.in_bounds;
      no_client = λ c. absurd (cc (h.no_server c, opn));
      no_server = h.no_server;
      earned = h.earned;
    } in
    elim (Bool-cases (is_ok err)) [
      | inl e ↦ rw (accept_taken s pcb err a e) (send_data-Sound s' a h' len)
      | inr e ↦ rw (accept_refused s pcb err a e) (result-Sound s err a h (λ c. absurd (cc (e, c))))
    ]

received-Sound :
    (copy : List ℕ → ℕ → List ℕ) (law : CopiesFront copy) (s : TcpServer) (p : List ℕ) (a : Answers)
    → Sound s
    → length a.rand ≡ buf_size
    → Sound (tcp_server_recv copy s (some p) a).0
unfolding tcp_server_recv
received-Sound copy law s p a h len =
    let got = receive copy s.buffer_recv s.recv_len p in
    let b = receive_bounded copy law s.buffer_recv s.recv_len p h.recv_size h.in_bounds in
    check_echo-Sound (record s { buffer_recv = got.0; recv_len = got.1 }) a
      (record {
        sent_size = h.sent_size;
        recv_size = b.0;
        in_bounds = b.1;
        no_client = h.no_client;
        no_server = h.no_server;
        earned = h.earned;
      })
      len

sent-Sound : (s : TcpServer) (len : ℕ) → Sound s → Sound (tcp_server_sent s len).0
unfolding tcp_server_sent
sent-Sound s len h =
    let same : (n k : ℕ) → n ≤ buf_size → Sound (record s { sent_len = k; recv_len = n }) =
      λ n k le. record {
        sent_size = h.sent_size;
        recv_size = h.recv_size;
        in_bounds = le;
        no_client = h.no_client;
        no_server = h.no_server;
        earned = h.earned;
      } in
    elim (Bool-cases (leb buf_size (s.sent_len + len))) [
      | inl e ↦ rw e (same 0 (s.sent_len + len) (omega arith))
      | inr e ↦ rw e (same s.recv_len (s.sent_len + len) h.in_bounds)
    ]

err-Sound :
    (s : TcpServer) (err : Err) (a : Answers)
    → Sound s
    → is_ok err ≡ false
    → Sound (tcp_server_err s err a)
unfolding tcp_server_err is_ok
err-Sound s err_ok a h e = absurd (cc e)
err-Sound s err_abrt a h e = h
err-Sound s err_val a h e = result-Sound s err_val a h (λ c. absurd (cc c))
err-Sound s err_other a h e = result-Sound s err_other a h (λ c. absurd (cc c))

-- However lwIP orders the callbacks, and whatever it answers, the buffers keep their size and
-- `recv_len` stays in the buffer, a completed test has closed both pcbs, and "test success" has
-- been printed only if `run_count` is at least 10. `pbuf_copy_partial` copies from the packet's
-- front, the order of callbacks is one that `Reachable` allows, and `rand` fills whole buffers.
pub tcp_server-Sound :
    (copy : List ℕ → ℕ → List ℕ) (law : CopiesFront copy) (s : TcpServer)
    → Reachable copy s
    → Sound s
unfolding tcp_server_accept tcp_server_recv tcp_server_poll
tcp_server-Sound copy law s (opened pcb bind listen) = open-Sound pcb bind listen
tcp_server-Sound copy law s (accepts s0 l pcb err a r opn len) =
    accept-Sound s0 l pcb err a (tcp_server-Sound copy law s0 r) opn len
tcp_server-Sound copy law s (fails_to_accept s0 l err a r opn e) =
    result-Sound s0 err a (tcp_server-Sound copy law s0 r) (λ c. absurd (cc (e, c)))
tcp_server-Sound copy law s (receives s0 none a r len) =
    result-Sound s0 err_other a (tcp_server-Sound copy law s0 r) (λ c. absurd (cc c))
tcp_server-Sound copy law s (receives s0 (some p) a r len) =
    received-Sound copy law s0 p a (tcp_server-Sound copy law s0 r) len
tcp_server-Sound copy law s (acknowledged s0 len r) =
    sent-Sound s0 len (tcp_server-Sound copy law s0 r)
tcp_server-Sound copy law s (polls s0 a r) =
    result-Sound s0 err_other a (tcp_server-Sound copy law s0 r) (λ c. absurd (cc c))
tcp_server-Sound copy law s (errs s0 err a r e) =
    err-Sound s0 err a (tcp_server-Sound copy law s0 r) e
