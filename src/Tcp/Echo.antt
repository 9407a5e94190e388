-- ===== src/Tcp/Echo.antt =====
-- picow_tcp_server.c: a buffer that comes back in pieces.
use pico_cpp.Common.{same_bytes, same_bytes_refl}
use pico_cpp.Common.{
  ℕ, ◌+◌, ◌<◌, ◌≡◌, refl, sym, ap, ◌∙◌, arith, List, [], ◌∷◌, ◌++◌, some, true, false,
}
use pico_cpp.Common.{length, take, length-append}
use pico_cpp.Tcp.Receive.{
  buf_size, receive, receive-Holds, take_all, Holds, CopiesFront, err_ok, err_other,
}
use pico_cpp.Tcp.Server.{TcpServer, Answers, tcp_server_recv, check_echo, tcp_server_send_data}
use pico_cpp.Tcp.Server.{test_iterations, tcp_server_result}
use mathlib.Core.List.{append_assoc}

abbrev pub concat : List (List ℕ) → List ℕ
concat [] = []
concat (p ∷ ps) = p ++ concat ps

pub full_Holds : (got buf : List ℕ) (n : ℕ) → Holds got buf n → n ≡ buf_size → buf ≡ got
full_Holds got buf n h e = sym (take_all buf) ∙ ap (λ k. take k buf) (h.size ∙ sym e) ∙ h.front

pub empty-Holds : (buf : List ℕ) (n : ℕ) → length buf ≡ buf_size → n ≡ 0 → Holds [] buf n
empty-Holds buf n room start = record {
  size = room;
  count = sym start;
  front = ap (λ k. take k buf) start;
}

module _ (copy : List ℕ → ℕ → List ℕ) (law : CopiesFront copy) where
  -- The packets of a buffer, one callback each.
  abbrev pub recv_all : TcpServer → List (List ℕ) → Answers → TcpServer
  recv_all s [] a = s
  recv_all s (p ∷ ps) a = recv_all (tcp_server_recv copy s (some p) a).0 ps a

  check_early : (s : TcpServer) (a : Answers) → s.recv_len < buf_size → check_echo s a ≡ (s, err_ok)
  unfolding check_echo
  check_early s a h = ground arith

  check_same :
      (s : TcpServer) (a : Answers)
      → s.recv_len ≡ buf_size
      → s.buffer_sent ≡ s.buffer_recv
      → s.run_count + 1 < test_iterations
      → check_echo s a ≡ tcp_server_send_data (record s { run_count = s.run_count + 1 }) a
  unfolding check_echo
  check_same s a len same few =
      let e : same_bytes s.buffer_sent s.buffer_recv ≡ true =
        rw same (same_bytes_refl s.buffer_recv) in
      ground arith

  check_other :
      (s : TcpServer) (a : Answers)
      → s.recv_len ≡ buf_size
      → same_bytes s.buffer_sent s.buffer_recv ≡ false
      → check_echo s a ≡ tcp_server_result s err_other a
  unfolding check_echo
  check_other s a len other = ground arith

  abbrev received : TcpServer → List ℕ → TcpServer
  received s p = record s {
    buffer_recv = (receive copy s.buffer_recv s.recv_len p).0;
    recv_len = (receive copy s.buffer_recv s.recv_len p).1;
  }

  recv_checks :
      (s : TcpServer) (p : List ℕ) (a : Answers)
      → tcp_server_recv copy s (some p) a ≡ check_echo (received s p) a
  unfolding tcp_server_recv
  recv_checks s p a = refl

  abbrev pub accepted : TcpServer → TcpServer
  accepted s = record s {
    run_count = s.run_count + 1;
    buffer_recv = s.buffer_sent;
    recv_len = buf_size;
  }

  recv_last :
      (s : TcpServer) (a : Answers) (got p : List ℕ)
      → Holds got s.buffer_recv s.recv_len
      → got ++ p ≡ s.buffer_sent
      → length s.buffer_sent ≡ buf_size
      → s.run_count + 1 < test_iterations
      → tcp_server_recv copy s (some p) a ≡ tcp_server_send_data (accepted s) a
  recv_last s a got p h whole size few =
      let total : s.recv_len + length p ≡ buf_size =
        omega (arith, length-append got p, h.count, size, ap length whole) in
      let r = receive-Holds copy law got s.buffer_recv s.recv_len p h (omega arith) in
      let len : (receive copy s.buffer_recv s.recv_len p).1 ≡ buf_size = r.1 ∙ total in
      let buf : (receive copy s.buffer_recv s.recv_len p).0 ≡ s.buffer_sent =
        full_Holds (got ++ p) _ _ r.0 len ∙ whole in
      recv_checks s p a ∙ check_same (received s p) a len (sym buf) few ∙ (λ i.
        tcp_server_send_data
          (record s { run_count = s.run_count + 1; buffer_recv = buf i; recv_len = len i }) a)

  recv_more :
      (s : TcpServer) (a : Answers) (got p : List ℕ)
      → Holds got s.buffer_recv s.recv_len
      → s.recv_len + length p < buf_size
      → (tcp_server_recv copy s (some p) a ≡ (received s p, err_ok))
        × Holds (got ++ p) (received s p).buffer_recv (received s p).recv_len
  recv_more s a got p h room =
      let r = receive-Holds copy law got s.buffer_recv s.recv_len p h (omega arith) in
      (recv_checks s p a ∙ check_early (received s p) a (omega (arith, r.1)), r.0)

  recv_rest :
      (ps : List (List ℕ)) (s : TcpServer) (a : Answers) (got p : List ℕ)
      → Holds got s.buffer_recv s.recv_len
      → got ++ (concat ps ++ p) ≡ s.buffer_sent
      → length s.buffer_sent ≡ buf_size
      → 0 < length p
      → s.run_count + 1 < test_iterations
      → recv_all s (ps ++ (p ∷ [])) a ≡ (tcp_server_send_data (accepted s) a).0
  recv_rest [] s a got p h whole size some_bytes few =
      ap (λ r. r.0) (recv_last s a got p h whole size few)
  recv_rest (q ∷ ps) s a got p h whole size some_bytes few =
      let rest = concat ps ++ p in
      let shift : got ++ ((q ++ concat ps) ++ p) ≡ (got ++ q) ++ rest =
        ap (λ l. got ++ l) (append_assoc q (concat ps) p) ∙ sym (append_assoc got q rest) in
      let m = recv_more s a got q h (
        omega (
          arith,
          length-append (got ++ q) rest,
          length-append got q,
          length-append (concat ps) p,
          h.count,
          size,
          ap length (sym shift ∙ whole),
        )) in
      ap (λ r. recv_all r.0 (ps ++ (p ∷ [])) a) m.0
      ∙ (recv_rest ps (received s q) a (got ++ q) p m.1 (sym shift ∙ whole) size some_bytes few)

  -- A buffer that comes back in any packets, the last of them not empty, ends the round: it is
  -- counted, and the server sends the next buffer. The round began with `recv_len` 0, the last
  -- packet is the one that fills the buffer, this is not the last round, and `pbuf_copy_partial`
  -- copies from the packet's front.
  pub recv_all_lem :
      (s : TcpServer) (a : Answers) (ps : List (List ℕ)) (p : List ℕ)
      → length s.buffer_recv ≡ buf_size
      → s.recv_len ≡ 0
      → concat ps ++ p ≡ s.buffer_sent
      → length s.buffer_sent ≡ buf_size
      → 0 < length p
      → s.run_count + 1 < test_iterations
      → recv_all s (ps ++ (p ∷ [])) a ≡ (tcp_server_send_data (accepted s) a).0
  recv_all_lem s a ps p room start whole size some_bytes few =
      recv_rest ps s a [] p (empty-Holds s.buffer_recv s.recv_len room start) whole size some_bytes
        few
