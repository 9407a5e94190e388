-- ===== src/Tcp/ClientSound.antt =====
-- picow_tcp_client.c: what holds between callbacks, in every order of them.
use pico_cpp.Common.{ℕ, ◌+◌, ◌≤◌, ◌≡◌, inl, inr, refl, arith, List, ◌∷◌, Option, none, some}
use pico_cpp.Common.{true, false, leb, ◌==◌, length, length-replicate, Bool-cases, Option-cases}
use pico_cpp.Tcp.Receive.{
  buf_size, receive, receive_bounded, CopiesFront, Err, err_ok, err_abrt, err_val, err_other,
}
use pico_cpp.Tcp.Server.{is_ok, test_iterations}
use pico_cpp.Tcp.Client.{
  TcpClient, tcp_client_init, tcp_client_open, tcp_client_connected, tcp_client_recv,
}
use pico_cpp.Tcp.Client.{
  tcp_client_sent, tcp_client_poll, tcp_client_err, tcp_result, tcp_client_close, send_back,
}
use pico_cpp.Tcp.Events.{any}

-- lwIP reports no `ERR_OK` to the error callback. Every callback may run at any time.
pub data ClientReachable (copy : List ℕ → ℕ → List ℕ) : TcpClient → Type 0 where
  client_opened :
      (pcb : Option ℕ) (connect : Err)
      → ClientReachable copy (tcp_client_open tcp_client_init pcb connect).0
  client_connected :
      (s : TcpClient) (err close : Err)
      → ClientReachable copy s
      → ClientReachable copy (tcp_client_connected s err close).0
  client_receives :
      (s : TcpClient) (p : Option (List ℕ)) (write close : Err)
      → ClientReachable copy s
      → ClientReachable copy (tcp_client_recv copy s p write close).0
  client_acknowledged :
      (s : TcpClient) (len : ℕ) (close : Err)
      → ClientReachable copy s
      → ClientReachable copy (tcp_client_sent s len close).0
  client_polls :
      (s : TcpClient) (close : Err)
      → ClientReachable copy s
      → ClientReachable copy (tcp_client_poll s close).0
  client_errs :
      (s : TcpClient) (err close : Err)
      → ClientReachable copy s
      → is_ok err ≡ false
      → ClientReachable copy (tcp_client_err s err close)

-- What holds between callbacks.
pub record ClientSound (s : TcpClient) : Type 0 where
  pub size : length s.buffer ≡ buf_size
  pub in_bounds : s.buffer_len ≤ buf_size
  pub closed : s.complete ≡ true → s.tcp_pcb ≡ none
  pub earned : any s.printed ≡ true → test_iterations ≤ s.run_count

close_none : (s : TcpClient) (e : Err) → s.tcp_pcb ≡ none → (tcp_client_close s e).0 ≡ s
unfolding tcp_client_close
close_none s e h = ground arith

close_some :
    (s : TcpClient) (e : Err) (pcb : ℕ)
    → s.tcp_pcb ≡ some pcb
    → (tcp_client_close s e).0 ≡ record s { tcp_pcb = none }
unfolding tcp_client_close
close_some s e pcb h = rw (h, tcp_client_close) refl

result-ClientSound :
    (s : TcpClient) (status close : Err)
    → ClientSound s
    → (is_ok status ≡ true → test_iterations ≤ s.run_count)
    → ClientSound (tcp_result s status close).0
unfolding tcp_result any
result-ClientSound s status close h won =
    let s' : TcpClient = record s { complete = true; printed = is_ok status ∷ s.printed } in
    let got : any s'.printed ≡ true → test_iterations ≤ s.run_count =
      λ c. elim (Bool-cases (is_ok status)) [ inl e ↦ won e | inr e ↦ h.earned (ground arith) ] in
    elim (Option-cases s.tcp_pcb) [
      | inl e ↦
          rw (close_none s' close e)
            (record { size = h.size; in_bounds = h.in_bounds; closed = λ c. e; earned = got })
      | inr (pcb, e) ↦
          rw (close_some s' close pcb e)
            (record { size = h.size; in_bounds = h.in_bounds; closed = λ c. refl; earned = got })
    ]

send_back-ClientSound :
    (s : TcpClient) (write close : Err) → ClientSound s → ClientSound (send_back s write close).0
unfolding send_back
send_back-ClientSound s write close h =
    let s' : TcpClient = record s { written = s.buffer ∷ s.written } in
    let h' : ClientSound s' = record {
      size = h.size;
      in_bounds = h.in_bounds;
      closed = h.closed;
      earned = h.earned;
    } in
    elim (Bool-cases (s.buffer_len == buf_size)) [
      | inr e ↦ rw e h
      | inl e ↦ elim (Bool-cases (is_ok write)) [
        | inl e2 ↦ rw (e, e2) h'
        | inr e2 ↦ rw (e, e2) (result-ClientSound s' err_other close h' (λ c. absurd (cc c)))
      ]
    ]

received-ClientSound :
    (copy : List ℕ → ℕ → List ℕ) (law : CopiesFront copy) (s : TcpClient) (p : List ℕ)
    (write close : Err)
    → ClientSound s
    → ClientSound (tcp_client_recv copy s (some p) write close).0
unfolding tcp_client_recv
received-ClientSound copy law s p write close h =
    let got = receive copy s.buffer s.buffer_len p in
    let b = receive_bounded copy law s.buffer s.buffer_len p h.size h.in_bounds in
    send_back-ClientSound (record s { buffer = got.0; buffer_len = got.1 }) write close
      (record { size = b.0; in_bounds = b.1; closed = h.closed; earned = h.earned })

sent-ClientSound :
    (s : TcpClient) (len : ℕ) (close : Err)
    → ClientSound s
    → ClientSound (tcp_client_sent s len close).0
unfolding tcp_client_sent
sent-ClientSound s len close h =
    let more : ℕ = s.sent_len + len in
    let counted : TcpClient = record s { sent_len = more; run_count = s.run_count + 1 } in
    let h' : ClientSound counted = record {
      size = h.size;
      in_bounds = h.in_bounds;
      closed = h.closed;
      earned = λ c. omega (arith, h.earned c);
    } in
    elim (Bool-cases (leb buf_size more)) [
      | inr e ↦
          rw e (record {
            size = h.size;
            in_bounds = h.in_bounds;
            closed = h.closed;
            earned = h.earned;
          })
      | inl e ↦ elim (Bool-cases (leb test_iterations (s.run_count + 1))) [
        | inl e2 ↦ rw (e, e2) (result-ClientSound counted err_ok close h' (λ c. ground arith))
        | inr e2 ↦
            rw (e, e2)
              (record {
                size = h.size;
                in_bounds = omega arith;
                closed = h.closed;
                earned = h'.earned;
              })
      ]
    ]

connect_fails :
    (s : TcpClient) (err close : Err)
    → is_ok err ≡ false
    → tcp_client_connected s err close ≡ tcp_result s err close
unfolding tcp_client_connected
connect_fails s err close e = ground arith

connect_works :
    (s : TcpClient) (err close : Err)
    → is_ok err ≡ true
    → tcp_client_connected s err close ≡ (record s { connected = true }, err_ok)
unfolding tcp_client_connected
connect_works s err close e = ground arith

connected-ClientSound :
    (s : TcpClient) (err close : Err)
    → ClientSound s
    → ClientSound (tcp_client_connected s err close).0
connected-ClientSound s err close h = elim (Bool-cases (is_ok err)) [
  | inl e ↦
      rw (connect_works s err close e)
        (record { size = h.size; in_bounds = h.in_bounds; closed = h.closed; earned = h.earned })
  | inr e ↦
      rw (connect_fails s err close e) (result-ClientSound s err close h (λ c. absurd (cc (e, c))))
]

err-ClientSound :
    (s : TcpClient) (err close : Err)
    → ClientSound s
    → is_ok err ≡ false
    → ClientSound (tcp_client_err s err close)
unfolding tcp_client_err is_ok
err-ClientSound s err_ok close h e = absurd (cc e)
err-ClientSound s err_abrt close h e = h
err-ClientSound s err_val close h e = result-ClientSound s err_val close h (λ c. absurd (cc c))
err-ClientSound s err_other close h e = result-ClientSound s err_other close h (λ c. absurd (cc c))

open-ClientSound :
    (pcb : Option ℕ) (connect : Err) → ClientSound (tcp_client_open tcp_client_init pcb connect).0
unfolding tcp_client_open any
open-ClientSound none connect = record {
  size = length-replicate {A = ℕ} buf_size 0;
  in_bounds = omega arith;
  closed = λ c. refl;
  earned = λ c. absurd (cc c);
}
open-ClientSound (some pcb) connect = record {
  size = length-replicate {A = ℕ} buf_size 0;
  in_bounds = omega arith;
  closed = λ c. absurd (cc c);
  earned = λ c. absurd (cc c);
}

-- However lwIP orders the callbacks of the client, and whatever it answers, the buffer keeps its
-- size and `buffer_len` stays in it, a completed test has closed the pcb, and "test success" has
-- been printed only if `run_count` is at least 10. `pbuf_copy_partial` copies from the packet's
-- front, and the order of callbacks is one that `ClientReachable` allows.
pub tcp_client-ClientSound :
    (copy : List ℕ → ℕ → List ℕ) (law : CopiesFront copy) (s : TcpClient)
    → ClientReachable copy s
    → ClientSound s
unfolding tcp_client_recv tcp_client_poll
tcp_client-ClientSound copy law s (client_opened pcb connect) = open-ClientSound pcb connect
tcp_client-ClientSound copy law s (client_connected s0 err close r) =
    connected-ClientSound s0 err close (tcp_client-ClientSound copy law s0 r)
tcp_client-ClientSound copy law s (client_receives s0 none write close r) =
    result-ClientSound s0 err_other close (tcp_client-ClientSound copy law s0 r)
      (λ c. absurd (cc c))
tcp_client-ClientSound copy law s (client_receives s0 (some p) write close r) =
    received-ClientSound copy law s0 p write close (tcp_client-ClientSound copy law s0 r)
tcp_client-ClientSound copy law s (client_acknowledged s0 len close r) =
    sent-ClientSound s0 len close (tcp_client-ClientSound copy law s0 r)
tcp_client-ClientSound copy law s (client_polls s0 close r) =
    result-ClientSound s0 err_other close (tcp_client-ClientSound copy law s0 r)
      (λ c. absurd (cc c))
tcp_client-ClientSound copy law s (client_errs s0 err close r e) =
    err-ClientSound s0 err close (tcp_client-ClientSound copy law s0 r) e
