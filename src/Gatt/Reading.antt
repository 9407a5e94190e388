-- ===== src/Gatt/Reading.antt =====
-- client.c: from the start of the stack to a temperature.
use pico_cpp.Common.{ℕ, ◌+◌, ◌*◌, ◌^◌, ◌≡◌, ◌∙◌, refl, ap, List, [], ◌∷◌, ◌++◌, true, false}
use pico_cpp.Common.{◌==◌, Bool-cases, inl, inr, ==_iff}
use pico_cpp.Gatt.Client.{BtCodes, AdData, GattEvent, HciEvent, Client, call}
use pico_cpp.Gatt.Client.{tc_w4_scan_result, tc_w4_connect, tc_w4_service_result}
use pico_cpp.Gatt.Client.{
  tc_w4_characteristic_result, tc_w4_enable_notifications_complete, tc_w4_ready,
}
use pico_cpp.Gatt.Client.{service_query_result, characteristic_query_result, query_complete}
use pico_cpp.Gatt.Client.{notification, stack_state, advertising_report}
use pico_cpp.Gatt.Client.{le_connection_complete, disconnection_complete, other_hci, start_scan}
use pico_cpp.Gatt.Client.{stop_scan, connect, discover_services}
use pico_cpp.Gatt.Client.{discover_characteristics, listen, enable_notifications}
use pico_cpp.Gatt.Client.{temperature, client_start}
use pico_cpp.Gatt.Client.{advertisement_report_contains_service, service_result}
use pico_cpp.Gatt.Client.{characteristic_result, notifications_enabled, ready_event, is_scanning}
use pico_cpp.Gatt.Client.{is_connecting, handle_gatt_client_event, hci_event_handler}

pub data Event : Type 0 where
  hci : HciEvent → Event
  gatt : GattEvent → Event

abbrev pub handle : BtCodes → Client → Event → Client
handle codes c (hci event) = hci_event_handler codes c event
handle codes c (gatt event) = handle_gatt_client_event codes c event

abbrev pub run : BtCodes → Client → List Event → Client
run codes c [] = c
run codes c (event ∷ events) = run codes (handle codes c event) events

-- Reports of devices without the service.
abbrev pub Strangers : BtCodes → List Event → Type 0
Strangers codes [] = Unit
Strangers codes (hci (advertising_report ads addr addr_type) ∷ events) =
    (advertisement_report_contains_service codes codes.environmental_sensing ads ≡ false)
    × Strangers codes events
Strangers codes (event ∷ events) = true ≡ false

module _ (codes : BtCodes) where
  run-append :
      (c : Client) (xs ys : List Event) → run codes c (xs ++ ys) ≡ run codes (run codes c xs) ys
  run-append c [] ys = refl
  run-append c (x ∷ xs) ys = run-append (handle codes c x) xs ys

  stranger :
      (c : Client) (ads : List AdData) (addr addr_type : ℕ)
      → advertisement_report_contains_service codes codes.environmental_sensing ads ≡ false
      → hci_event_handler codes c (advertising_report ads addr addr_type) ≡ c
  unfolding hci_event_handler
  stranger c ads addr addr_type lacks = elim (Bool-cases (is_scanning c.state)) [
    | inl scans ↦ rw (hci_event_handler, scans, lacks) refl
    | inr deaf ↦ rw (hci_event_handler, deaf) refl
  ]

  ignores_others :
      (c : Client) (events : List Event) → Strangers codes events → run codes c events ≡ c
  ignores_others c [] s = refl
  ignores_others c (hci (advertising_report ads addr addr_type) ∷ events) s =
      ap (λ x. run codes x events) (stranger c ads addr addr_type s.0) ∙ ignores_others c events s.1
  ignores_others c (hci (stack_state working) ∷ events) s = absurd (cc s)
  ignores_others c (hci (le_connection_complete x) ∷ events) s = absurd (cc s)
  ignores_others c (hci disconnection_complete ∷ events) s = absurd (cc s)
  ignores_others c (hci other_hci ∷ events) s = absurd (cc s)
  ignores_others c (gatt event ∷ events) s = absurd (cc s)

  found :
      (c : Client) (ads : List AdData) (addr addr_type : ℕ)
      → c.state ≡ tc_w4_scan_result
      → advertisement_report_contains_service codes codes.environmental_sensing ads ≡ true
      → hci_event_handler codes c (advertising_report ads addr addr_type)
        ≡ call
            (call
              (record c { server_addr = addr; server_addr_type = addr_type; state = tc_w4_connect })
              stop_scan)
            (connect addr addr_type)
  unfolding hci_event_handler is_scanning
  found c ads addr addr_type here has =
      let scans : is_scanning c.state ≡ true = ap is_scanning here in
      rw (hci_event_handler, scans, has) refl

  itself : (codes.att_error_success == codes.att_error_success) ≡ true
  itself = (==_iff codes.att_error_success codes.att_error_success).1 refl

  service_found :
      (c : Client)
      → service_result codes c (query_complete codes.att_error_success)
        ≡ call
            (record c { state = tc_w4_characteristic_result })
            (discover_characteristics c.connection_handle c.server_service)
  unfolding service_result
  service_found c = rw (service_result, itself) refl

  characteristic_found :
      (c : Client)
      → characteristic_result codes c (query_complete codes.att_error_success)
        ≡ call
            (record (call
              (record c { listener_registered = true })
              (listen c.connection_handle c.server_characteristic)) {
                state = tc_w4_enable_notifications_complete;
              })
            (enable_notifications c.connection_handle c.server_characteristic)
  unfolding characteristic_result
  characteristic_found c = rw (characteristic_result, itself) refl

  enabled :
      (c : Client)
      → notifications_enabled codes c (query_complete codes.att_error_success)
        ≡ record c { state = tc_w4_ready }
  unfolding notifications_enabled
  enabled c = rw (notifications_enabled, itself) refl

  -- What the sensor and BTstack answer, from its advertisement to a notification.
  abbrev pub sensor : List AdData → ℕ → ℕ → ℕ → ℕ → ℕ → ℕ → ℕ → List Event
  sensor ads addr addr_type con service characteristic low high =
      hci (advertising_report ads addr addr_type)
      ∷ hci (le_connection_complete con)
      ∷ gatt (service_query_result service)
      ∷ gatt (query_complete codes.att_error_success)
      ∷ gatt (characteristic_query_result characteristic)
      ∷ gatt (query_complete codes.att_error_success)
      ∷ gatt (query_complete codes.att_error_success)
      ∷ gatt (notification (low ∷ high ∷ []))
      ∷ []

  -- From any state, once the stack works and however many devices without the service are heard
  -- first: the client connects to the sensor that advertises the service, finds the service and the
  -- characteristic, listens, enables notifications and prints the 16-bit value of a notification.
  pub reads_temperature :
      (c : Client) (strangers : List Event) (ads : List AdData)
      (addr addr_type con service characteristic low high : ℕ)
      → Strangers codes strangers
      → advertisement_report_contains_service codes codes.environmental_sensing ads ≡ true
      → run codes c (
          hci (stack_state true) ∷ strangers
          ++ sensor ads addr addr_type con service characteristic low high)
        ≡ record c {
          state = tc_w4_ready;
          server_addr = addr;
          server_addr_type = addr_type;
          connection_handle = con;
          server_service = service;
          server_characteristic = characteristic;
          listener_registered = true;
          calls =
              temperature (low + high * 2 ^ 8)
              ∷ enable_notifications con characteristic
              ∷ listen con characteristic
              ∷ discover_characteristics con service
              ∷ discover_services con
              ∷ connect addr addr_type
              ∷ stop_scan
              ∷ start_scan
              ∷ c.calls;
        }
  unfolding hci_event_handler handle_gatt_client_event client_start service_result
      characteristic_result notifications_enabled ready_event is_scanning is_connecting
  reads_temperature c strangers ads addr addr_type con service characteristic low high pass has =
      let last = gatt (notification (low ∷ high ∷ [])) ∷ [] in
      let good = gatt (query_complete codes.att_error_success) in
      let events = sensor ads addr addr_type con service characteristic low high in
      let c₁ = client_start c in
      let c₂ =
        call
          (call
            (record c₁ { server_addr = addr; server_addr_type = addr_type; state = tc_w4_connect })
            stop_scan)
          (connect addr addr_type) in
      let c₃ = record (call c₂ (discover_services con)) {
        connection_handle = con;
        server_service = service;
        state = tc_w4_service_result;
      } in
      let c₄ = record (call c₃ (discover_characteristics con service)) {
        server_characteristic = characteristic;
        state = tc_w4_characteristic_result;
      } in
      let c₅ =
        record (call (call c₄ (listen con characteristic))
          (enable_notifications con characteristic)) {
            listener_registered = true;
            state = tc_w4_enable_notifications_complete;
          } in
      run-append c₁ strangers events
      ∙ ap (λ x. run codes x events) (ignores_others c₁ strangers pass)
      ∙ ap
          (λ x. run codes x (
            hci (le_connection_complete con)
            ∷ gatt (service_query_result service)
            ∷ good
            ∷ gatt (characteristic_query_result characteristic)
            ∷ good
            ∷ good
            ∷ last))
          (found c₁ ads addr addr_type refl has)
      ∙ ap
          (λ x.
            run codes x (gatt (characteristic_query_result characteristic) ∷ good ∷ good ∷ last))
          (service_found c₃)
      ∙ ap (λ x. run codes x (good ∷ last)) (characteristic_found c₄)
      ∙ ap (λ x. run codes x last) (enabled c₅)
