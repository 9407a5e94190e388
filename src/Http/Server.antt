-- ===== src/Http/Server.antt =====
-- picow_access_point.c: a connection and its callbacks. A C string is the list of its characters;
-- `sscanf_led` is `sscanf` with "led=%d", and `gw` the gateway's address as `ipaddr_ntoa` prints it.
-- The results of lwIP are arguments; what is written is kept in `written`, the latest first.
use pico_cpp.Common.{
  ℕ, zero, suc, ◌+◌, ◌/◌, ◌%◌, ◌-◌, List, [], ◌∷◌, ◌++◌, Option, none, some, Bool, true, false,
}
use pico_cpp.Common.{
  not, ◌==◌, ltb, leb, nonzero, if◌then◌else◌, length, take, drop, splice, replicate,
}
use pico_cpp.Http.Texts.{http_get, led_test, body_start, body_link, body_turn, body_end, on_word}
use pico_cpp.Http.Texts.{off_word, headers_start, headers_length, headers_end, redirect_start}
use pico_cpp.Http.Texts.{redirect_end}

abbrev pub headers_size : ℕ
headers_size = 128

abbrev pub result_size : ℕ
result_size = 256

-- `strncmp(s, prefix, strlen(prefix)) == 0`.
unfoldable pub starts_with : List ℕ → List ℕ → Bool
starts_with [] s = true
starts_with (c ∷ prefix) [] = false
starts_with (c ∷ prefix) (d ∷ s) = let rest = starts_with prefix s in if c == d then rest else false

-- The characters in front of the first `c`.
unfoldable pub until : ℕ → List ℕ → List ℕ
until c [] = []
until c (d ∷ s) = let rest = until c s in if d == c then [] else d ∷ rest

-- `strchr`, as what stands behind the first `c`.
unfoldable pub behind : ℕ → List ℕ → Option (List ℕ)
behind c [] = none
behind c (d ∷ s) = let rest = behind c s in if d == c then some s else rest

-- "%d" of a number that is not negative, with at most so many digits.
unfoldable pub decimal : ℕ → ℕ → List ℕ
decimal zero n = []
decimal (suc digits) n =
    let front = decimal digits (n / 10) in (if ltb n 10 then [] else front) ++ ((48 + n % 10) ∷ [])

unfoldable pub page : Bool → List ℕ
page led =
    body_start
    ++ (if led then on_word else off_word)
    ++ body_link
    ++ decimal 10 (if led then 0 else 1)
    ++ body_turn
    ++ (if led then off_word else on_word)
    ++ body_end

-- The page, if one is asked for, and the LED.
unfoldable pub test_server_content :
    (List ℕ → Option ℕ) → List ℕ → Option (List ℕ) → Bool → List ℕ × Bool
unfolding starts_with page
test_server_content sscanf_led request params led =
    if starts_with led_test request
    then (let led_state : Bool = elim params [
      | none ↦ led
      | some text ↦ elim (sscanf_led text) [ none ↦ led | some value ↦ nonzero value ]
    ] in
        (page led_state, led_state))
    else ([], led)

unfoldable pub has_space : List ℕ → Bool
unfolding behind
has_space s = elim (behind 32 s) [ none ↦ false | some rest ↦ true ]

-- The request in front of the '?', and the parameters behind it, both cut at the first space.
unfoldable pub split_request : List ℕ → List ℕ × Option (List ℕ)
unfolding until behind has_space
split_request request = elim (behind 63 request) [
  | none ↦ (request, none)
  | some params ↦
      let front = until 63 request in
      (until 32 front, some (if has_space front then params else until 32 params))
]

unfoldable pub response_headers : ℕ → List ℕ
unfolding decimal
response_headers result_len =
    headers_start ++ decimal 10 200 ++ headers_length ++ decimal 10 result_len ++ headers_end

unfoldable pub redirect : List ℕ → List ℕ
redirect gw = redirect_start ++ gw ++ redirect_end

-- `TCP_CONNECT_STATE_T`, with the LED; `open_pcb` is false once the state has been freed.
pub record Connection : Type 0 where
  pub open_pcb : Bool
  pub sent_len : ℕ
  pub headers : List ℕ
  pub header_len : ℕ
  pub result_len : ℕ
  pub led : Bool
  pub written : List (List ℕ)

-- The state as `calloc` gives it, for a connection that is open.
abbrev pub fresh : Bool → Connection
fresh led = record {
  open_pcb = true;
  sent_len = 0;
  headers = replicate 128 0;
  header_len = 0;
  result_len = 0;
  led = led;
  written = [];
}

pub data Err : Type 0 where
  err_ok err_abrt err_clsd err_val err_mem err_other : Err

unfoldable pub is_ok : Err → Bool
is_ok err_ok = true
is_ok _ = false

-- `close_ok` says whether `tcp_close` succeeds.
unfoldable pub tcp_close_client_connection : Connection → Err → Bool → Connection × Err
tcp_close_client_connection con close_err close_ok =
    (record con { open_pcb = false }, if not close_ok then err_abrt else close_err)

unfoldable pub tcp_server_sent : Connection → ℕ → Bool → Connection × Err
unfolding tcp_close_client_connection
tcp_server_sent con len close_ok =
    let con = record con { sent_len = con.sent_len + len } in
    if leb (con.header_len + con.result_len) con.sent_len
    then tcp_close_client_connection con err_ok close_ok
    else (con, err_ok)

-- `snprintf` into a buffer: what fits, with a 0 behind it.
unfoldable pub snprintf : List ℕ → ℕ → List ℕ → List ℕ
snprintf buffer size text = splice buffer 0 (take (size - 1) text ++ (0 ∷ []))

-- The end of the handler of a request, once the headers are made: the results of the two calls of
-- `tcp_write` are `headers_err` and `result_err`.
unfoldable pub send_response : Connection → List ℕ → Err → Err → Bool → Connection × Err
unfolding tcp_close_client_connection is_ok
send_response con result headers_err result_err close_ok =
    let con = record con {
      sent_len = 0;
      written = take con.header_len con.headers ∷ con.written;
    } in
    if not (is_ok headers_err)
    then tcp_close_client_connection con headers_err close_ok
    else if nonzero con.result_len
    then (let con = record con { written = result ∷ con.written } in
        if not (is_ok result_err)
        then tcp_close_client_connection con result_err close_ok
        else (con, err_ok))
    else (con, err_ok)

-- The rest of the handler, once the content is made.
unfoldable pub answer_content :
    List ℕ → Connection → List ℕ × Bool → Err → Err → Bool → Connection × Err
unfolding response_headers redirect snprintf send_response tcp_close_client_connection
answer_content gw con content headers_err result_err close_ok =
    let result_len = length content.0 in
    let con = record con { result_len = result_len; led = content.1 } in
    let text = response_headers result_len in
    let answer = record con {
      headers = snprintf con.headers headers_size text;
      header_len = length text;
    } in
    let elsewhere = record con {
      headers = snprintf con.headers headers_size (redirect gw);
      header_len = length (redirect gw);
    } in
    if ltb (result_size - 1) result_len
    then tcp_close_client_connection con err_clsd close_ok
    else if ltb 0 result_len
    then if ltb (headers_size - 1) (length text)
      then tcp_close_client_connection answer err_clsd close_ok
      else send_response answer content.0 headers_err result_err close_ok
    else send_response elsewhere [] headers_err result_err close_ok

unfoldable pub handle_get :
    (List ℕ → Option ℕ) → List ℕ → Connection → Err → Err → Bool → Connection × Err
unfolding split_request test_server_content answer_content
handle_get sscanf_led gw con headers_err result_err close_ok =
    let request = split_request (until 0 (drop 4 con.headers)) in
    let content = test_server_content sscanf_led request.0 request.1 con.led in
    answer_content gw con content headers_err result_err close_ok

-- The copy of the packet into the buffer; `pbuf_copy_partial` gives as many of its bytes as are asked
-- for.
unfoldable pub copied : (List ℕ → ℕ → List ℕ) → Connection → List ℕ → Connection
copied pbuf_copy_partial con p =
    let wanted : ℕ = if ltb (headers_size - 1) (length p) then headers_size - 1 else length p in
    record con { headers = splice con.headers 0 (pbuf_copy_partial p wanted) }

unfoldable pub serve :
    (List ℕ → Option ℕ) → List ℕ → Connection → Err → Err → Bool → Connection × Err
unfolding handle_get starts_with until
serve sscanf_led gw con headers_err result_err close_ok =
    if starts_with http_get (until 0 con.headers)
    then handle_get sscanf_led gw con headers_err result_err close_ok
    else (con, err_ok)

unfoldable pub tcp_server_recv :
    (List ℕ → ℕ → List ℕ)
    → (List ℕ → Option ℕ)
    → List ℕ
    → Connection
    → Option (List ℕ)
    → Err
    → Err
    → Bool
    → Connection × Err
unfolding copied serve tcp_close_client_connection
tcp_server_recv pbuf_copy_partial sscanf_led gw con none headers_err result_err close_ok =
    tcp_close_client_connection con err_ok close_ok
tcp_server_recv pbuf_copy_partial sscanf_led gw con (some p) headers_err result_err close_ok =
    if ltb 0 (length p)
    then serve sscanf_led gw (copied pbuf_copy_partial con p) headers_err result_err close_ok
    else (con, err_ok)
