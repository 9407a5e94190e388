-- ===== src/Tcp/Round.antt =====
-- picow_tcp_client.c: a buffer is sent back whole; with picow_tcp_server.c, a whole round.
use pico_cpp.Common.{ℕ, ◌+◌, ◌<◌, ◌≡◌, refl, sym, ap, ◌∙◌, arith, List, [], ◌∷◌, ◌++◌, some}
use pico_cpp.Common.{length, length-append}
use pico_cpp.Tcp.Receive.{buf_size, receive, receive-Holds, Holds, CopiesFront, err_ok}
use pico_cpp.Tcp.Server.{TcpServer, Answers, tcp_server_send_data, test_iterations, is_ok}
use pico_cpp.Tcp.Client.{TcpClient, tcp_client_recv, send_back}
use pico_cpp.Tcp.Echo.{concat, full_Holds, empty-Holds, recv_all, recv_all_lem, accepted}
use mathlib.Core.List.{append_assoc}

module _ (copy : List ℕ → ℕ → List ℕ) (law : CopiesFront copy) where
  -- The packets of a buffer, one callback each, while lwIP accepts what is written.
  abbrev pub client_recv_all : TcpClient → List (List ℕ) → TcpClient
  client_recv_all s [] = s
  client_recv_all s (p ∷ ps) = client_recv_all (tcp_client_recv copy s (some p) err_ok err_ok).0 ps

  abbrev received : TcpClient → List ℕ → TcpClient
  received s p = record s {
    buffer = (receive copy s.buffer s.buffer_len p).0;
    buffer_len = (receive copy s.buffer s.buffer_len p).1;
  }

  recv_sends :
      (s : TcpClient) (p : List ℕ)
      → tcp_client_recv copy s (some p) err_ok err_ok ≡ send_back (received s p) err_ok err_ok
  unfolding tcp_client_recv
  recv_sends s p = refl

  send_early : (s : TcpClient) → s.buffer_len < buf_size → send_back s err_ok err_ok ≡ (s, err_ok)
  unfolding send_back
  send_early s h = ground arith

  send_full :
      (s : TcpClient)
      → s.buffer_len ≡ buf_size
      → send_back s err_ok err_ok ≡ (record s { written = s.buffer ∷ s.written }, err_ok)
  unfolding send_back is_ok
  send_full s h = ground arith

  -- The client with a whole buffer, sent back.
  abbrev pub answered : TcpClient → List ℕ → TcpClient
  answered s sent = record s { buffer = sent; buffer_len = buf_size; written = sent ∷ s.written }

  recv_rest :
      (ps : List (List ℕ)) (s : TcpClient) (got p sent : List ℕ)
      → Holds got s.buffer s.buffer_len
      → got ++ (concat ps ++ p) ≡ sent
      → length sent ≡ buf_size
      → 0 < length p
      → client_recv_all s (ps ++ (p ∷ [])) ≡ answered s sent
  recv_rest [] s got p sent h whole size some_bytes =
      let total : s.buffer_len + length p ≡ buf_size =
        omega (arith, length-append got p, h.count, size, ap length whole) in
      let r = receive-Holds copy law got s.buffer s.buffer_len p h (omega arith) in
      let len : (receive copy s.buffer s.buffer_len p).1 ≡ buf_size = r.1 ∙ total in
      let buf : (receive copy s.buffer s.buffer_len p).0 ≡ sent =
        full_Holds (got ++ p) _ _ r.0 len ∙ whole in
      ap (λ t. t.0) (recv_sends s p ∙ send_full (received s p) len)
      ∙ (λ i. record s { buffer = buf i; buffer_len = len i; written = buf i ∷ s.written })
  recv_rest (q ∷ ps) s got p sent h whole size some_bytes =
      let rest = concat ps ++ p in
      let shift : got ++ ((q ++ concat ps) ++ p) ≡ (got ++ q) ++ rest =
        ap (λ l. got ++ l) (append_assoc q (concat ps) p) ∙ sym (append_assoc got q rest) in
      let room : s.buffer_len + length q < buf_size = omega (
        arith,
        length-append (got ++ q) rest,
        length-append got q,
        length-append (concat ps) p,
        h.count,
        size,
        ap length (sym shift ∙ whole),
      ) in
      let r = receive-Holds copy law got s.buffer s.buffer_len q h (omega arith) in
      ap (λ t. client_recv_all t.0 (ps ++ (p ∷ [])))
        (recv_sends s q ∙ send_early (received s q) (omega (arith, r.1)))
      ∙ recv_rest ps (received s q) (got ++ q) p sent r.0 (sym shift ∙ whole) size some_bytes

  -- A buffer that reaches the client in any packets, the last of them not empty, is sent back
  -- whole, once, when the last packet has come. The client waited for it with `buffer_len` 0,
  -- lwIP takes what it writes, and `pbuf_copy_partial` copies from the packet's front.
  pub client_recv_all_lem :
      (s : TcpClient) (ps : List (List ℕ)) (p : List ℕ)
      → length s.buffer ≡ buf_size
      → s.buffer_len ≡ 0
      → length (concat ps ++ p) ≡ buf_size
      → 0 < length p
      → client_recv_all s (ps ++ (p ∷ [])) ≡ answered s (concat ps ++ p)
  client_recv_all_lem s ps p room start size some_bytes =
      recv_rest ps s [] p (concat ps ++ p) (empty-Holds s.buffer s.buffer_len room start) refl size
        some_bytes

  -- A whole round, however the network cuts the two streams into packets: what the server has sent
  -- reaches the client, what the client writes reaches the server, and the server counts the
  -- round and sends its next buffer. Both waited for a buffer from its start, the last packet of
  -- each stream is the one that fills the buffer, lwIP takes what the client writes, it is not
  -- the last round, and `pbuf_copy_partial` copies from the packet's front.
  pub round_lem :
      (s : TcpServer) (c : TcpClient) (a : Answers) (ps qs : List (List ℕ)) (p q : List ℕ)
      → length s.buffer_recv ≡ buf_size
      → length c.buffer ≡ buf_size
      → length s.buffer_sent ≡ buf_size
      → s.recv_len ≡ 0
      → c.buffer_len ≡ 0
      → 0 < length p
      → 0 < length q
      → s.run_count + 1 < test_iterations
      → concat ps ++ p ≡ s.buffer_sent
      → (concat qs ++ q) ∷ c.written ≡ (client_recv_all c (ps ++ (p ∷ []))).written
      → recv_all copy law s (qs ++ (q ∷ [])) a ≡ (tcp_server_send_data (accepted copy law s) a).0
  round_lem s c a ps qs p q rs rc ss s0 c0 pp qq few sent back =
      let w = client_recv_all_lem c ps p rc c0 (ap length sent ∙ ss) pp in
      let e : concat qs ++ q ≡ s.buffer_sent = cc (back ∙ ap (λ t. t.written) w, sent) in
      recv_all_lem copy law s a qs q rs s0 e ss qq few
