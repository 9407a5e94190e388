-- ===== src/Tcp/Events.antt =====
-- picow_tcp_server.c: every order in which lwIP can call the server back.
use pico_cpp.Common.{same_bytes}
use pico_cpp.Common.{ℕ, ◌+◌, ◌≤◌, ◌≡◌, inl, inr, refl, arith, List, [], ◌∷◌, Option, none, some}
use pico_cpp.Common.{Bool, true, false, ◌||◌, leb, ◌==◌, length, Bool-cases}
use pico_cpp.Tcp.Receive.{buf_size, Err, err_ok}
use pico_cpp.Tcp.Receive.{err_other}
use pico_cpp.Tcp.Server.{TcpServer, Answers, tcp_server_init, tcp_server_open, tcp_server_accept}
use pico_cpp.Tcp.Server.{
  tcp_server_recv, tcp_server_sent, tcp_server_poll, tcp_server_err, test_iterations,
}
use pico_cpp.Tcp.Server.{
  tcp_server_result, tcp_server_close, tcp_server_send_data, check_echo, is_ok,
}

unfoldable pub any : List Bool → Bool
any [] = false
any (b ∷ bs) = b || any bs

-- lwIP calls `accept` on a listening pcb, gives it a pcb unless there is an error, and never
-- reports `ERR_OK` to the error callback. The other callbacks may run at any time.
pub data Reachable (copy : List ℕ → ℕ → List ℕ) : TcpServer → Type 0 where
  opened :
      (pcb : Option ℕ) (bind : Err) (listen : Option ℕ)
      → Reachable copy (tcp_server_open tcp_server_init pcb bind listen).0
  accepts :
      (s : TcpServer) (listening pcb : ℕ) (err : Err) (a : Answers)
      → Reachable copy s
      → s.server_pcb ≡ some listening
      → length a.rand ≡ buf_size
      → Reachable copy (tcp_server_accept s (some pcb) err a).0
  fails_to_accept :
      (s : TcpServer) (listening : ℕ) (err : Err) (a : Answers)
      → Reachable copy s
      → s.server_pcb ≡ some listening
      → is_ok err ≡ false
      → Reachable copy (tcp_server_accept s none err a).0
  receives :
      (s : TcpServer) (p : Option (List ℕ)) (a : Answers)
      → Reachable copy s
      → length a.rand ≡ buf_size
      → Reachable copy (tcp_server_recv copy s p a).0
  acknowledged :
      (s : TcpServer) (len : ℕ) → Reachable copy s → Reachable copy (tcp_server_sent s len).0
  polls : (s : TcpServer) (a : Answers) → Reachable copy s → Reachable copy (tcp_server_poll s a).0
  errs :
      (s : TcpServer) (err : Err) (a : Answers)
      → Reachable copy s
      → is_ok err ≡ false
      → Reachable copy (tcp_server_err s err a)

-- What holds between callbacks.
pub record Sound (s : TcpServer) : Type 0 where
  pub sent_size : length s.buffer_sent ≡ buf_size
  pub recv_size : length s.buffer_recv ≡ buf_size
  pub in_bounds : s.recv_len ≤ buf_size
  pub no_client : s.complete ≡ true → s.client_pcb ≡ none
  pub no_server : s.complete ≡ true → s.server_pcb ≡ none
  pub earned : any s.printed ≡ true → test_iterations ≤ s.run_count

pub result-Sound :
    (s : TcpServer) (status : Err) (a : Answers)
    → Sound s
    → (is_ok status ≡ true → test_iterations ≤ s.run_count)
    → Sound (tcp_server_result s status a).0
unfolding tcp_server_result tcp_server_close any
result-Sound s status a h won = record {
  sent_size = h.sent_size;
  recv_size = h.recv_size;
  in_bounds = h.in_bounds;
  no_client = λ c. refl;
  no_server = λ c. refl;
  earned =
      λ c. elim (Bool-cases (is_ok status)) [ inl e ↦ won e | inr e ↦ h.earned (ground arith) ];
}

pub send_data-Sound :
    (s : TcpServer) (a : Answers)
    → Sound s
    → length a.rand ≡ buf_size
    → Sound (tcp_server_send_data s a).0
unfolding tcp_server_send_data
send_data-Sound s a h len =
    let s' : TcpServer = record s { buffer_sent = a.rand; sent_len = 0 } in
    let h' : Sound s' = record {
      sent_size = len;
      recv_size = h.recv_size;
      in_bounds = h.in_bounds;
      no_client = h.no_client;
      no_server = h.no_server;
      earned = h.earned;
    } in
    elim (Bool-cases (is_ok a.tcp_write)) [
      | inl e ↦ rw e h'
      | inr e ↦ rw e (result-Sound s' err_other a h' (λ c. absurd (cc c)))
    ]

pub check_echo-Sound :
    (s : TcpServer) (a : Answers) → Sound s → length a.rand ≡ buf_size → Sound (check_echo s a).0
unfolding check_echo
check_echo-Sound s a h len =
    let s' : TcpServer = record s { run_count = s.run_count + 1 } in
    let h' : Sound s' = record {
      sent_size = h.sent_size;
      recv_size = h.recv_size;
      in_bounds = h.in_bounds;
      no_client = h.no_client;
      no_server = h.no_server;
      earned = λ c. omega (arith, h.earned c);
    } in
    elim (Bool-cases (s.recv_len == buf_size)) [
      | inr e ↦ rw e h
      | inl e ↦ elim (Bool-cases (same_bytes s.buffer_sent s.buffer_recv)) [
        | inr e2 ↦ rw (e, e2) (result-Sound s err_other a h (λ c. absurd (cc c)))
        | inl e2 ↦ elim (Bool-cases (leb test_iterations (s.run_count + 1))) [
          | inl e3 ↦ rw (e, e2, e3) (result-Sound s' err_ok a h' (λ c. ground arith))
          | inr e3 ↦ rw (e, e2, e3) (send_data-Sound s' a h' len)
        ]
      ]
    ]
