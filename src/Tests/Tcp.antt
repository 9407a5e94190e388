-- ===== src/Tests/Tcp.antt =====
-- picow_tcp_server.c and picow_tcp_client.c: a round in two packets each way.
use pico_cpp.Common.{ℕ, ◌<◌, ◌≡◌, refl, ap, sym, arith, List, [], ◌∷◌, ◌++◌, some}
use pico_cpp.Common.{replicate, length, length-replicate, length-append, take}
use pico_cpp.Tcp.Receive.{buf_size, CopiesFront, err_ok}
use pico_cpp.Tcp.Server.{TcpServer, Answers, tcp_server_init, tcp_server_open, tcp_server_accept}
use pico_cpp.Tcp.Server.{is_ok, tcp_server_send_data, tcp_server_poll}
use pico_cpp.Tcp.Client.{tcp_client_init, tcp_client_open, tcp_client_connected, tcp_client_poll}
use pico_cpp.Tcp.ClientSound.{
  ClientSound, client_opened, client_connected, client_polls, tcp_client-ClientSound,
}
use pico_cpp.Tcp.Events.{Sound, opened, accepts, polls}
use pico_cpp.Tcp.Sound.{tcp_server-Sound}
use pico_cpp.Tcp.Echo.{concat, recv_all, recv_all_lem, accepted}
use pico_cpp.Tcp.Round.{client_recv_all, answered, client_recv_all_lem, round_lem}

abbrev copy : List ℕ → ℕ → List ℕ
copy payload n = take n payload

copy-CopiesFront : CopiesFront copy
copy-CopiesFront payload n = refl

abbrev front : List ℕ
front = replicate 1000 7

abbrev back : List ℕ
back = replicate 1048 8

abbrev sent : List ℕ
sent = concat (front ∷ []) ++ back

length-sent : length sent ≡ buf_size
length-sent = omega (
  arith,
  length-append (front ++ []) back,
  length-append front [],
  length-replicate {A = ℕ} 1000 7,
  length-replicate {A = ℕ} 1048 8,
)

abbrev answers : Answers
answers = record { tcp_close = err_ok; tcp_write = err_ok; rand = replicate buf_size 3 }

abbrev listening : TcpServer
listening = record tcp_server_init { server_pcb = some 2 }

-- The server has sent its buffer and waits.
abbrev waiting : TcpServer
waiting = record listening { client_pcb = some 1; buffer_sent = sent }

listens : (tcp_server_open tcp_server_init (some 1) err_ok (some 2)).0 ≡ listening
unfolding tcp_server_open is_ok
listens = refl

tcp_server-Sound_example :
    Sound
      (tcp_server_poll
        (tcp_server_accept
          (tcp_server_open tcp_server_init (some 1) err_ok (some 2)).0
          (some 5)
          err_ok
          answers).0
        answers).0
tcp_server-Sound_example =
    tcp_server-Sound copy copy-CopiesFront
      (tcp_server_poll
        (tcp_server_accept (tcp_server_open tcp_server_init (some 1) err_ok (some 2)).0 (some 5)
          err_ok answers).0
        answers).0
      (polls _ answers (
        accepts _ 2 5 err_ok answers (opened (some 1) err_ok (some 2))
          (ap (λ s. s.server_pcb) listens) (length-replicate {A = ℕ} buf_size 3)))

some_back : 0 < length back
some_back = omega (arith, length-replicate {A = ℕ} 1048 8)

recv_all_lem_example :
    recv_all copy copy-CopiesFront waiting (front ∷ back ∷ []) answers
    ≡ (tcp_server_send_data (accepted copy copy-CopiesFront waiting) answers).0
recv_all_lem_example =
    recv_all_lem copy copy-CopiesFront waiting answers (front ∷ []) back
      (length-replicate {A = ℕ} buf_size 0) refl refl length-sent some_back (omega arith)

client_recv_all_lem_example :
    client_recv_all copy copy-CopiesFront tcp_client_init (front ∷ back ∷ [])
    ≡ answered copy copy-CopiesFront tcp_client_init sent
client_recv_all_lem_example =
    client_recv_all_lem copy copy-CopiesFront tcp_client_init (front ∷ []) back
      (length-replicate {A = ℕ} buf_size 0) refl length-sent some_back

written_back :
    sent ∷ [] ≡ (client_recv_all copy copy-CopiesFront tcp_client_init (front ∷ back ∷ [])).written
written_back = sym (
    ap (λ c. c.written)
      (client_recv_all_lem copy copy-CopiesFront tcp_client_init (front ∷ []) back
        (length-replicate {A = ℕ} buf_size 0) refl length-sent some_back))

round_lem_example :
    recv_all copy copy-CopiesFront waiting (front ∷ back ∷ []) answers
    ≡ (tcp_server_send_data (accepted copy copy-CopiesFront waiting) answers).0
round_lem_example =
    round_lem copy copy-CopiesFront waiting tcp_client_init answers (front ∷ []) (front ∷ []) back
      back (length-replicate {A = ℕ} buf_size 0) (length-replicate {A = ℕ} buf_size 0) length-sent
      refl refl some_back some_back (omega arith) refl written_back

tcp_client-ClientSound_example :
    ClientSound
      (tcp_client_poll
        (tcp_client_connected (tcp_client_open tcp_client_init (some 1) err_ok).0 err_ok err_ok).0
        err_ok).0
tcp_client-ClientSound_example =
    tcp_client-ClientSound copy copy-CopiesFront
      (tcp_client_poll
        (tcp_client_connected (tcp_client_open tcp_client_init (some 1) err_ok).0 err_ok err_ok).0
        err_ok).0
      (client_polls _ err_ok (client_connected _ err_ok err_ok (client_opened (some 1) err_ok)))
