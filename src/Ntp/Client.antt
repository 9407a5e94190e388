-- ===== src/Ntp/Client.antt =====
-- picow_ntp_client.c: the client's state and its callbacks. The alarms that the SDK has armed
-- for the client are in the state, since whether it can go on depends on them.
use pico_cpp.Common.{ℕ, ◌+◌, List, [], ◌∷◌, Option, none, some, Bool, true, false, not, ◌==◌, ◌&&◌}
use pico_cpp.Common.{if◌then◌else◌, u32, sub32, ◌<<<◌, bit_and, bit_or, get_or, length, replicate}
use pico_cpp.Common.{ℤ, pos, is_negative, is_positive, set, nonzero}

abbrev pub ntp_msg_len : ℕ
ntp_msg_len = 48

abbrev pub ntp_port : ℕ
ntp_port = 123

abbrev pub ntp_delta : ℕ
ntp_delta = 2208988800

abbrev pub ntp_test_time_ms : ℕ
ntp_test_time_ms = 30000

abbrev pub ntp_resend_time_ms : ℕ
ntp_resend_time_ms = 10000

-- What the SDK and lwIP provide.
pub record Sdk : Type 0 where
  -- The time that is so many milliseconds after the first one.
  pub make_timeout_time_ms : ℕ → ℕ → ℕ
  -- The second time less the first.
  pub absolute_time_diff_us : ℕ → ℕ → ℤ
  -- The alarms that are armed, before and after; adding one also gives what it returns.
  pub add_alarm_in_ms : ℕ → List ℕ → ℤ × List ℕ
  pub cancel_alarm : ℤ → List ℕ → List ℕ
  pub pbuf_get_at : List ℕ → ℕ → ℕ
  -- A packet, a length and an offset.
  pub pbuf_copy_partial : List ℕ → ℕ → ℕ → List ℕ

pub record Datagram : Type 0 where
  pub payload : List ℕ
  pub address : ℕ
  pub port : ℕ

-- `armed` are the alarms that will call `ntp_failed_handler`; `queries` counts the calls of
-- `dns_gethostbyname`; `sent` and `times` are what was sent and what times were printed, the latest
-- first.
pub record Ntp : Type 0 where
  pub ntp_server_address : ℕ
  pub dns_request_sent : Bool
  pub ntp_test_time : ℕ
  pub ntp_resend_alarm : ℤ
  pub armed : List ℕ
  pub queries : ℕ
  pub sent : List Datagram
  pub times : List ℕ

-- `calloc` clears the state, when it has the memory.
abbrev pub ntp_init : Ntp
ntp_init = record {
  ntp_server_address = 0;
  dns_request_sent = false;
  ntp_test_time = 0;
  ntp_resend_alarm = pos 0;
  armed = [];
  queries = 0;
  sent = [];
  times = [];
}

module _ (sdk : Sdk) where
  -- `result` is the time, when the status is 0.
  unfoldable pub ntp_result : Ntp → ℕ → Option ℕ → Ntp
  ntp_result state now result =
      let state : Ntp = elim result [
        | none ↦ state
        | some epoch ↦ record state { times = epoch ∷ state.times }
      ] in
      let state =
        if is_positive state.ntp_resend_alarm
        then record state {
          armed = sdk.cancel_alarm state.ntp_resend_alarm state.armed;
          ntp_resend_alarm = pos 0;
        }
        else state in
      record state {
        ntp_test_time = sdk.make_timeout_time_ms now ntp_test_time_ms;
        dns_request_sent = false;
      }

  unfoldable pub ntp_request : Ntp → Ntp
  ntp_request state =
      let req = set (replicate ntp_msg_len 0) 0 0x1b in
      let packet : Datagram = record {
        payload = req;
        address = state.ntp_server_address;
        port = ntp_port;
      } in
      record state { sent = packet ∷ state.sent }

  -- Its 0 tells the SDK not to arm the alarm again.
  unfoldable pub ntp_failed_handler : Ntp → ℕ → Ntp × ℕ
  unfolding ntp_result
  ntp_failed_handler state now = (ntp_result state now none, 0)

  unfoldable pub ntp_dns_found : Ntp → ℕ → Option ℕ → Ntp
  unfolding ntp_request ntp_result
  ntp_dns_found state now none = ntp_result state now none
  ntp_dns_found state now (some ipaddr) = ntp_request (record state { ntp_server_address = ipaddr })

  unfoldable pub is_reply : Ntp → List ℕ → ℕ → ℕ → Bool
  is_reply state p addr port =
      let mode = bit_and (sdk.pbuf_get_at p 0) 0x7 in
      let stratum = sdk.pbuf_get_at p 1 in
      (addr == state.ntp_server_address)
      && (port == ntp_port)
      && (length p == ntp_msg_len)
      && (mode == 0x4)
      && nonzero stratum

  unfoldable pub seconds_since_1900 : List ℕ → ℕ
  seconds_since_1900 p =
      let seconds_buf = sdk.pbuf_copy_partial p 4 40 in
      u32 (
        bit_or
          (bit_or (bit_or (get_or seconds_buf 0 0 <<< 24) (get_or seconds_buf 1 0 <<< 16))
            (get_or seconds_buf 2 0 <<< 8))
          (get_or seconds_buf 3 0))

  unfoldable pub ntp_recv : Ntp → ℕ → List ℕ → ℕ → ℕ → Ntp
  unfolding is_reply seconds_since_1900 ntp_result
  ntp_recv state now p addr port =
      if is_reply state p addr port
      then ntp_result state now (some (sub32 (seconds_since_1900 p) ntp_delta))
      else ntp_result state now none

-- What `dns_gethostbyname` returns: a cached address, `ERR_INPROGRESS`, or another error.
pub data DnsResult : Type 0 where
  cached : ℕ → DnsResult
  in_progress failed : DnsResult

module _ (sdk : Sdk) where
  unfoldable pub is_due : Ntp → ℕ → Bool
  is_due state now =
      is_negative (sdk.absolute_time_diff_us now state.ntp_test_time) && not state.dns_request_sent

  -- The loop's body up to the query, which stores a cached address.
  unfoldable pub arm_and_query : Ntp → DnsResult → Ntp
  arm_and_query state answer =
      let alarm = sdk.add_alarm_in_ms ntp_resend_time_ms state.armed in
      let address : ℕ = elim answer [
        | cached ipaddr ↦ ipaddr
        | in_progress ↦ state.ntp_server_address
        | failed ↦ state.ntp_server_address
      ] in
      record state {
        ntp_resend_alarm = alarm.0;
        armed = alarm.1;
        queries = state.queries + 1;
        ntp_server_address = address;
      }

  -- The rest of it.
  unfoldable pub after_query : Ntp → ℕ → DnsResult → Ntp
  unfolding ntp_request ntp_result
  after_query state now answer =
      let state = record state { dns_request_sent = true } in
      elim answer [
        | cached ipaddr ↦ ntp_request sdk state
        | in_progress ↦ state
        | failed ↦ ntp_result sdk state now none
      ]

  unfoldable pub run_ntp_test : Ntp → ℕ → DnsResult → Ntp
  unfolding is_due arm_and_query after_query
  run_ntp_test state now answer =
      if is_due state now then after_query (arm_and_query state answer) now answer else state
