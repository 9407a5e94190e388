-- ===== src/Http/Page.antt =====
-- picow_access_point.c: a request that switches the LED, from its packet to what is written.
use pico_cpp.Common.{ℕ, zero, suc, ◌+◌, ◌<◌, ◌≡◌, ◌≢◌, ◌∙◌, refl, ap, arith, List, [], ◌∷◌, ◌++◌}
use pico_cpp.Common.{Option, some, Bool, true, false, nonzero, ltb, ◌==◌}
use pico_cpp.Common.{length, take, drop, splice, replicate, All}
use pico_cpp.Tcp.Receive.{take_all}
use pico_cpp.Http.Texts.{led_test, http_get}
use pico_cpp.Http.Server.{
  fresh, Connection, err_ok, starts_with, until, behind, decimal, page, has_space,
}
use pico_cpp.Http.Server.{answer_content, copied, serve}
use pico_cpp.Http.Server.{test_server_content, split_request, response_headers, snprintf}
use pico_cpp.Http.Server.{send_response, handle_get, tcp_server_recv, is_ok}

abbrev pub Without : ℕ → List ℕ → Type 0
Without c = All (λ d. d ≢ c)

until_first : (c : ℕ) (s rest : List ℕ) → Without c s → until c (s ++ c ∷ rest) ≡ s
unfolding until
until_first c [] rest w = let same : (c == c) ≡ true = ground arith in rw (until, same) refl
until_first c (d ∷ s) rest w =
    let differs : (d == c) ≡ false = differ d c w.0 in
    rw (until, differs) (ap (λ l. d ∷ l) (until_first c s rest w.1))
  where
    differ : (a b : ℕ) → a ≢ b → (a == b) ≡ false
    differ a b h = ground arith

until_over : (c : ℕ) (s rest : List ℕ) → Without c s → until c (s ++ rest) ≡ s ++ until c rest
unfolding until
until_over c [] rest w = refl
until_over c (d ∷ s) rest w =
    let differs : (d == c) ≡ false = differ d c w.0 in
    rw (until, differs) (ap (λ l. d ∷ l) (until_over c s rest w.1))
  where
    differ : (a b : ℕ) → a ≢ b → (a == b) ≡ false
    differ a b h = ground arith

until_zeros : (n m : ℕ) → until 0 (drop n (replicate m 0)) ≡ []
unfolding until
until_zeros zero zero = refl
until_zeros zero (suc m) = refl
until_zeros (suc n) zero = refl
until_zeros (suc n) (suc m) = until_zeros n m

append_nil : (xs : List ℕ) → xs ++ [] ≡ xs
append_nil [] = refl
append_nil (x ∷ xs) = ap (λ l. x ∷ l) (append_nil xs)

-- A packet without a 0 is the string in the fresh buffer.
fresh_string : (p : List ℕ) → Without 0 p → until 0 (splice (replicate 128 0) 0 p) ≡ p
fresh_string p w =
    until_over 0 p (drop (0 + length p) (replicate 128 0)) w
    ∙ ap (λ l. p ++ l) (until_zeros (0 + length p) 128)
    ∙ append_nil p

-- "/ledtest?", the parameters, a space and the rest of the request.
abbrev pub led_request : List ℕ → List ℕ → List ℕ
led_request params rest = led_test ++ 63 ∷ (params ++ 32 ∷ rest)

split_led :
    (params rest : List ℕ)
    → Without 32 params
    → split_request (led_request params rest) ≡ (led_test, some params)
unfolding split_request until behind has_space
split_led params rest w = ap (λ t. (led_test, some t)) (until_first 32 params rest w)

content_led :
    (sscanf_led : List ℕ → Option ℕ) (params : List ℕ) (value : ℕ) (led : Bool)
    → sscanf_led params ≡ some value
    → test_server_content sscanf_led led_test (some params) led
      ≡ (page (nonzero value), nonzero value)
unfolding test_server_content starts_with
content_led sscanf_led params value led e = rw (test_server_content, e) refl

-- The page and its headers fit in their buffers, and both are written.
answer_page :
    (gw : List ℕ) (con : Connection) (on close_ok : Bool)
    → ((answer_content gw con (page on, on) err_ok err_ok close_ok).0.written
        ≡ page on ∷ response_headers (length (page on)) ∷ con.written)
      × ((answer_content gw con (page on, on) err_ok err_ok close_ok).0.led ≡ on)
      × ((answer_content gw con (page on, on) err_ok err_ok close_ok).0.open_pcb ≡ con.open_pcb)
      × ((answer_content gw con (page on, on) err_ok err_ok close_ok).1 ≡ err_ok)
unfolding answer_content send_response snprintf response_headers page decimal is_ok
answer_page gw con true close_ok = (refl, refl, refl, refl)
answer_page gw con false close_ok = (refl, refl, refl, refl)

-- The packet of a request that switches the LED.
abbrev pub led_packet : List ℕ → List ℕ → List ℕ
led_packet params rest = 71 ∷ 69 ∷ 84 ∷ 32 ∷ led_request params rest

copied_whole :
    (copy : List ℕ → ℕ → List ℕ) (con : Connection) (p : List ℕ)
    → ltb 127 (length p) ≡ false
    → copy p (length p) ≡ p
    → copied copy con p ≡ record con { headers = splice con.headers 0 p }
unfolding copied
copied_whole copy con p small whole = rw (copied, small, whole) refl

served_get :
    (sscanf_led : List ℕ → Option ℕ) (gw : List ℕ) (con : Connection) (close_ok : Bool)
    → starts_with http_get (until 0 con.headers) ≡ true
    → serve sscanf_led gw con err_ok err_ok close_ok
      ≡ handle_get sscanf_led gw con err_ok err_ok close_ok
unfolding serve
served_get sscanf_led gw con close_ok get = rw (serve, get) refl

recv_lem :
    (copy : List ℕ → ℕ → List ℕ) (sscanf_led : List ℕ → Option ℕ) (gw p : List ℕ) (con : Connection)
    (close_ok : Bool)
    → ltb 127 (length p) ≡ false
    → ltb 0 (length p) ≡ true
    → copy p (length p) ≡ p
    → starts_with http_get (until 0 (splice con.headers 0 p)) ≡ true
    → tcp_server_recv copy sscanf_led gw con (some p) err_ok err_ok close_ok
      ≡ handle_get sscanf_led gw
          (record con { headers = splice con.headers 0 p })
          err_ok
          err_ok
          close_ok
unfolding tcp_server_recv
recv_lem copy sscanf_led gw p con close_ok small some_bytes whole get =
    rw (tcp_server_recv, some_bytes)
      (ap (λ c. serve sscanf_led gw c err_ok err_ok close_ok) (copied_whole copy con p small whole)
        ∙ served_get sscanf_led gw (record con { headers = splice con.headers 0 p }) close_ok get)

module _ (sscanf_led : List ℕ → Option ℕ) (gw params rest : List ℕ) (value : ℕ)
    (led close_ok : Bool) (spaceless : Without 32 params) (params_text : Without 0 params)
    (rest_text : Without 0 rest) (reads : sscanf_led params ≡ some value) where
  text_append : (xs ys : List ℕ) → Without 0 xs → Without 0 ys → Without 0 (xs ++ ys)
  text_append [] ys x y = y
  text_append (c ∷ xs) ys x y = (x.0, text_append xs ys x.1 y)

  led_request_text : Without 0 (led_request params rest)
  led_request_text = (
    omega arith,
    (
      omega arith,
      (
        omega arith,
        (
          omega arith,
          (
            omega arith,
            (
              omega arith,
              (
                omega arith,
                (
                  omega arith,
                  (
                    omega arith,
                    text_append params (32 ∷ rest) params_text (omega arith, rest_text),
                  ),
                ),
              ),
            ),
          ),
        ),
      ),
    ),
  )

  served :
      (con : Connection)
      → until 0 (drop 4 con.headers) ≡ led_request params rest
      → handle_get sscanf_led gw con err_ok err_ok close_ok
        ≡ answer_content gw con (page (nonzero value), nonzero value) err_ok err_ok close_ok
  unfolding handle_get
  served con text =
      let split = ap split_request text ∙ split_led params rest spaceless in
      ap
        (λ r.
          answer_content gw con (test_server_content sscanf_led r.0 r.1 con.led) err_ok err_ok
            close_ok)
        split
      ∙ ap (λ c. answer_content gw con c err_ok err_ok close_ok)
          (content_led sscanf_led params value con.led reads)

  -- A packet "GET /ledtest?" with parameters without a space that `sscanf` reads a number from, on a
  -- new connection and of 127 bytes at most, sets the LED on when the number is not 0 and off when it
  -- is; the headers with the length of the page that shows this LED and that page are written, both
  -- whole, and the connection stays open. `pbuf_copy_partial` copies from the packet's front, and
  -- `tcp_write` takes both.
  pub led_switched :
      (pbuf_copy_partial : List ℕ → ℕ → List ℕ)
      → ((payload : List ℕ) (n : ℕ) → pbuf_copy_partial payload n ≡ take n payload)
      → length (led_packet params rest) < 128
      → (con : Connection) × (tcp_server_recv pbuf_copy_partial sscanf_led gw
            (fresh led)
            (some (led_packet params rest))
            err_ok
            err_ok
            close_ok
          ≡ (con, err_ok))
        × (con.led ≡ nonzero value)
        × (con.written
            ≡ page (nonzero value) ∷ response_headers (length (page (nonzero value))) ∷ [])
        × (con.open_pcb ≡ true)
  unfolding starts_with
  led_switched pbuf_copy_partial copies short =
      let p = led_packet params rest in
      let text : Without 0 p =
        (omega arith, (omega arith, (omega arith, (omega arith, led_request_text)))) in
      let small : ltb 127 (length p) ≡ false = ground arith in
      let some_bytes : ltb 0 (length p) ≡ true = ground arith in
      let whole : pbuf_copy_partial p (length p) ≡ p = copies p (length p) ∙ take_all p in
      let got : starts_with http_get (until 0 (splice (replicate 128 0) 0 p)) ≡ true =
        ap (starts_with http_get) (fresh_string p text) in
      let con : Connection = record (fresh led) { headers = splice (replicate 128 0) 0 p } in
      let behind_get : until 0 (drop 4 con.headers) ≡ led_request params rest =
        until_over 0 (led_request params rest) (drop (0 + length p) (replicate 128 0))
          led_request_text
        ∙ ap (λ l. led_request params rest ++ l) (until_zeros (0 + length p) 128)
        ∙ append_nil (led_request params rest) in
      let r = answer_content gw con (page (nonzero value), nonzero value) err_ok err_ok close_ok in
      let a = answer_page gw con (nonzero value) close_ok in
      (
        r.0,
        recv_lem pbuf_copy_partial sscanf_led gw p (fresh led) close_ok small some_bytes whole got
            ∙ served con behind_get
            ∙ ap (λ e. (r.0, e)) a.3,
        a.1,
        a.0,
        a.2,
      )
