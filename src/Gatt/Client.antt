-- ===== src/Gatt/Client.antt =====
-- client.c: the handlers of BTstack's events. An event is what BTstack's accessors read out of a
-- packet; what is called of BTstack and printed is kept in `calls`, the latest first.
use pico_cpp.Common.{ℕ, ◌+◌, List, [], ◌∷◌, Bool, true, false, not, ◌==◌, ◌&&◌}
use pico_cpp.Common.{if◌then◌else◌, get_or, ◌<<<◌, length}

-- BTstack's constants, with their names there.
pub record BtCodes : Type 0 where
  pub con_handle_invalid : ℕ
  pub att_error_success : ℕ
  pub complete_list_of_16_bit_uuids : ℕ
  pub environmental_sensing : ℕ

pub data GcState : Type 0 where
  tc_off tc_idle tc_w4_scan_result tc_w4_connect tc_w4_service_result : GcState
  tc_w4_characteristic_result tc_w4_enable_notifications_complete tc_w4_ready : GcState

-- One entry of an advertisement: its type, its data, and the byte that stands behind them.
pub record AdData : Type 0 where
  pub data_type : ℕ
  pub payload : List ℕ
  pub behind : ℕ

pub data GattEvent : Type 0 where
  service_query_result characteristic_query_result query_complete : ℕ → GattEvent
  notification : List ℕ → GattEvent
  other_gatt : ℕ → GattEvent

pub data HciEvent : Type 0 where
  -- Whether the stack is working.
  stack_state : Bool → HciEvent
  advertising_report : List AdData → ℕ → ℕ → HciEvent
  le_connection_complete : ℕ → HciEvent
  disconnection_complete other_hci : HciEvent

pub data Call : Type 0 where
  start_scan stop_scan stop_listening error_line : Call
  connect : ℕ → ℕ → Call
  discover_services disconnect : ℕ → Call
  discover_characteristics listen enable_notifications : ℕ → ℕ → Call
  att_error temperature unexpected_length : ℕ → Call
  unknown_packet : GattEvent → Call

-- The static variables; a service, a characteristic and an address are kept as numbers.
pub record Client : Type 0 where
  pub state : GcState
  pub server_addr : ℕ
  pub server_addr_type : ℕ
  pub connection_handle : ℕ
  pub server_service : ℕ
  pub server_characteristic : ℕ
  pub listener_registered : Bool
  pub calls : List Call

abbrev pub call : Client → Call → Client
call c x = record c { calls = x ∷ c.calls }

abbrev pub at_start : Client
at_start = record {
  state = tc_off;
  server_addr = 0;
  server_addr_type = 0;
  connection_handle = 0;
  server_service = 0;
  server_characteristic = 0;
  listener_registered = false;
  calls = [];
}

unfoldable pub client_start : Client → Client
client_start c = record (call c start_scan) { state = tc_w4_scan_result }

-- The loop over the 16-bit numbers of one entry; of an odd number of bytes the last is read with the
-- byte behind.
unfoldable pub lists_service : ℕ → ℕ → List ℕ → Bool
lists_service service behind [] = false
lists_service service behind (low ∷ []) = low + (behind <<< 8) == service
lists_service service behind (low ∷ high ∷ rest) =
    let later = lists_service service behind rest in
    if low + (high <<< 8) == service then true else later

unfoldable pub is_scanning : GcState → Bool
is_scanning tc_w4_scan_result = true
is_scanning _ = false

unfoldable pub is_connecting : GcState → Bool
is_connecting tc_w4_connect = true
is_connecting _ = false

unfoldable pub is_off : GcState → Bool
is_off tc_off = true
is_off _ = false

module _ (codes : BtCodes) where
  unfoldable pub advertisement_report_contains_service : ℕ → List AdData → Bool
  unfolding lists_service
  advertisement_report_contains_service service [] = false
  advertisement_report_contains_service service (ad ∷ ads) =
      let later = advertisement_report_contains_service service ads in
      if (ad.data_type == codes.complete_list_of_16_bit_uuids)
        && lists_service service ad.behind ad.payload
      then true
      else later

  unfoldable pub service_result : Client → GattEvent → Client
  service_result c (service_query_result service) = record c { server_service = service }
  service_result c (query_complete att_status) =
      if not (att_status == codes.att_error_success)
      then call (call c (att_error att_status)) (disconnect c.connection_handle)
      else call (record c { state = tc_w4_characteristic_result })
          (discover_characteristics c.connection_handle c.server_service)
  service_result c event = c

  unfoldable pub characteristic_result : Client → GattEvent → Client
  characteristic_result c (characteristic_query_result characteristic) = record c {
    server_characteristic = characteristic;
  }
  characteristic_result c (query_complete att_status) =
      if not (att_status == codes.att_error_success)
      then call (call c (att_error att_status)) (disconnect c.connection_handle)
      else (let c =
            call (record c { listener_registered = true })
              (listen c.connection_handle c.server_characteristic) in
          call (record c { state = tc_w4_enable_notifications_complete })
            (enable_notifications c.connection_handle c.server_characteristic))
  characteristic_result c event = c

  unfoldable pub notifications_enabled : Client → GattEvent → Client
  notifications_enabled c (query_complete att_status) =
      if not (att_status == codes.att_error_success) then c else record c { state = tc_w4_ready }
  notifications_enabled c event = c

  unfoldable pub ready_event : Client → GattEvent → Client
  ready_event c (notification value) =
      if length value == 2
      then call c (temperature (get_or value 0 0 + (get_or value 1 0 <<< 8)))
      else call c (unexpected_length (length value))
  ready_event c event = call c (unknown_packet event)

  unfoldable pub handle_gatt_client_event : Client → GattEvent → Client
  unfolding service_result characteristic_result notifications_enabled ready_event
  handle_gatt_client_event c event = elim c.state [
    | tc_w4_service_result ↦ service_result c event
    | tc_w4_characteristic_result ↦ characteristic_result c event
    | tc_w4_enable_notifications_complete ↦ notifications_enabled c event
    | tc_w4_ready ↦ ready_event c event
    | _ ↦ call c error_line
  ]

  unfoldable pub hci_event_handler : Client → HciEvent → Client
  unfolding client_start advertisement_report_contains_service is_scanning is_connecting is_off
  hci_event_handler c (stack_state working) =
      if working then client_start c else record c { state = tc_off }
  hci_event_handler c (advertising_report ads addr addr_type) =
      if not (is_scanning c.state)
      then c
      else if not (advertisement_report_contains_service codes.environmental_sensing ads)
      then c
      else call
          (call
            (record c { server_addr = addr; server_addr_type = addr_type; state = tc_w4_connect })
            stop_scan)
          (connect addr addr_type)
  hci_event_handler c (le_connection_complete handle) =
      if not (is_connecting c.state)
      then c
      else call (record c { connection_handle = handle; state = tc_w4_service_result })
          (discover_services handle)
  hci_event_handler c disconnection_complete =
      let c = record c { connection_handle = codes.con_handle_invalid } in
      let c =
        if c.listener_registered
        then record (call c stop_listening) { listener_registered = false }
        else c in
      if is_off c.state then c else client_start c
  hci_event_handler c other_hci = c
