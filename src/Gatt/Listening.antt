-- ===== src/Gatt/Listening.antt =====
-- client.c: when the client listens for notifications, in every order of events.
use pico_cpp.Common.{◌≡◌, ◌∙◌, refl, ap, sym, List, [], ◌∷◌, Bool, true, false, ◌==◌}
use pico_cpp.Common.{Bool-cases, inl, inr, length}
use pico_cpp.Gatt.Client.{BtCodes, GcState, GattEvent, HciEvent, Call, Client, at_start}
use pico_cpp.Gatt.Client.{tc_off, tc_idle, tc_w4_scan_result, tc_w4_connect, tc_w4_service_result}
use pico_cpp.Gatt.Client.{
  tc_w4_characteristic_result, tc_w4_enable_notifications_complete, tc_w4_ready,
}
use pico_cpp.Gatt.Client.{service_query_result, characteristic_query_result, query_complete}
use pico_cpp.Gatt.Client.{notification, other_gatt, stack_state, advertising_report}
use pico_cpp.Gatt.Client.{le_connection_complete, disconnection_complete, other_hci}
use pico_cpp.Gatt.Client.{stop_listening}
use pico_cpp.Gatt.Client.{listen}
use pico_cpp.Gatt.Client.{client_start}
use pico_cpp.Gatt.Client.{advertisement_report_contains_service, service_result}
use pico_cpp.Gatt.Client.{characteristic_result, notifications_enabled, ready_event, is_scanning}
use pico_cpp.Gatt.Client.{is_connecting, is_off, handle_gatt_client_event, hci_event_handler}

-- Whether the last call about listening is that it begins.
abbrev pub listening : List Call → Bool
listening [] = false
listening (listen handle characteristic ∷ calls) = true
listening (stop_listening ∷ calls) = false
listening (_ ∷ calls) = listening calls

-- The states behind the registration of the listener.
abbrev pub follows_listening : GcState → Bool
follows_listening tc_w4_enable_notifications_complete = true
follows_listening tc_w4_ready = true
follows_listening _ = false

pub record Sound (c : Client) : Type 0 where
  pub flag : c.listener_registered ≡ listening c.calls
  pub earned : follows_listening c.state ≡ true → c.listener_registered ≡ true

pub data Reachable (codes : BtCodes) : Client → Type 0 where
  starts : Reachable codes at_start
  hears :
      (c : Client) (event : HciEvent)
      → Reachable codes c
      → Reachable codes (hci_event_handler codes c event)
  answers :
      (c : Client) (event : GattEvent)
      → Reachable codes c
      → Reachable codes (handle_gatt_client_event codes c event)

start-Sound : (c : Client) → Sound c → Sound (client_start c)
unfolding client_start
start-Sound c s = record { flag = s.flag; earned = λ e. absurd (cc e) }

off_earns : (state : GcState) → is_off state ≡ true → follows_listening state ≡ true → true ≡ false
unfolding is_off
off_earns tc_off e f = absurd (cc f)
off_earns tc_idle e f = absurd (cc e)
off_earns tc_w4_scan_result e f = absurd (cc e)
off_earns tc_w4_connect e f = absurd (cc e)
off_earns tc_w4_service_result e f = absurd (cc e)
off_earns tc_w4_characteristic_result e f = absurd (cc e)
off_earns tc_w4_enable_notifications_complete e f = absurd (cc e)
off_earns tc_w4_ready e f = absurd (cc e)

module _ (codes : BtCodes) where
  service_result-Sound :
      (c : Client) (event : GattEvent) → Sound c → Sound (service_result codes c event)
  unfolding service_result
  service_result-Sound c (service_query_result service) s = record {
    flag = s.flag;
    earned = s.earned;
  }
  service_result-Sound c (query_complete status) s =
      elim (Bool-cases (status == codes.att_error_success)) [
        | inl good ↦
            rw (service_result, good) (record { flag = s.flag; earned = λ e. absurd (cc e) })
        | inr bad ↦ rw (service_result, bad) (record { flag = s.flag; earned = s.earned })
      ]
  service_result-Sound c (characteristic_query_result x) s = s
  service_result-Sound c (notification value) s = s
  service_result-Sound c (other_gatt packet_type) s = s

  characteristic_result-Sound :
      (c : Client) (event : GattEvent) → Sound c → Sound (characteristic_result codes c event)
  unfolding characteristic_result
  characteristic_result-Sound c (characteristic_query_result x) s = record {
    flag = s.flag;
    earned = s.earned;
  }
  characteristic_result-Sound c (query_complete status) s =
      elim (Bool-cases (status == codes.att_error_success)) [
        | inl good ↦ rw (characteristic_result, good) (record { flag = refl; earned = λ e. refl })
        | inr bad ↦ rw (characteristic_result, bad) (record { flag = s.flag; earned = s.earned })
      ]
  characteristic_result-Sound c (service_query_result service) s = s
  characteristic_result-Sound c (notification value) s = s
  characteristic_result-Sound c (other_gatt packet_type) s = s

  enabled-Sound :
      (c : Client) (event : GattEvent)
      → c.state ≡ tc_w4_enable_notifications_complete
      → Sound c
      → Sound (notifications_enabled codes c event)
  unfolding notifications_enabled
  enabled-Sound c (query_complete status) here s =
      elim (Bool-cases (status == codes.att_error_success)) [
        | inl good ↦
            rw (notifications_enabled, good)
              (record { flag = s.flag; earned = λ e. s.earned (ap follows_listening here) })
        | inr bad ↦ rw (notifications_enabled, bad) s
      ]
  enabled-Sound c (service_query_result service) here s = s
  enabled-Sound c (characteristic_query_result x) here s = s
  enabled-Sound c (notification value) here s = s
  enabled-Sound c (other_gatt packet_type) here s = s

  ready-Sound : (c : Client) (event : GattEvent) → Sound c → Sound (ready_event codes c event)
  unfolding ready_event
  ready-Sound c (notification value) s = elim (Bool-cases (length value == 2)) [
    | inl two ↦ rw (ready_event, two) (record { flag = s.flag; earned = s.earned })
    | inr other ↦ rw (ready_event, other) (record { flag = s.flag; earned = s.earned })
  ]
  ready-Sound c (query_complete status) s = record { flag = s.flag; earned = s.earned }
  ready-Sound c (service_query_result service) s = record { flag = s.flag; earned = s.earned }
  ready-Sound c (characteristic_query_result x) s = record { flag = s.flag; earned = s.earned }
  ready-Sound c (other_gatt packet_type) s = record { flag = s.flag; earned = s.earned }

  gatt-Sound :
      (c : Client) (event : GattEvent) (state : GcState)
      → c.state ≡ state
      → Sound c
      → Sound (handle_gatt_client_event codes c event)
  unfolding handle_gatt_client_event
  gatt-Sound c event tc_w4_service_result here s =
      rw (handle_gatt_client_event, here) (service_result-Sound c event s)
  gatt-Sound c event tc_w4_characteristic_result here s =
      rw (handle_gatt_client_event, here) (characteristic_result-Sound c event s)
  gatt-Sound c event tc_w4_enable_notifications_complete here s =
      rw (handle_gatt_client_event, here) (enabled-Sound c event here s)
  gatt-Sound c event tc_w4_ready here s =
      rw (handle_gatt_client_event, here) (ready-Sound c event s)
  gatt-Sound c event tc_off here s =
      rw (handle_gatt_client_event, here) (record { flag = s.flag; earned = s.earned })
  gatt-Sound c event tc_idle here s =
      rw (handle_gatt_client_event, here) (record { flag = s.flag; earned = s.earned })
  gatt-Sound c event tc_w4_scan_result here s =
      rw (handle_gatt_client_event, here) (record { flag = s.flag; earned = s.earned })
  gatt-Sound c event tc_w4_connect here s =
      rw (handle_gatt_client_event, here) (record { flag = s.flag; earned = s.earned })

  hci-Sound : (c : Client) (event : HciEvent) → Sound c → Sound (hci_event_handler codes c event)
  unfolding hci_event_handler
  hci-Sound c (stack_state true) s = start-Sound c s
  hci-Sound c (stack_state false) s = record { flag = s.flag; earned = λ e. absurd (cc e) }
  hci-Sound c (advertising_report ads addr addr_type) s = elim (Bool-cases (is_scanning c.state)) [
    | inr deaf ↦ rw (hci_event_handler, deaf) s
    | inl scans ↦
        elim (Bool-cases
          (advertisement_report_contains_service codes codes.environmental_sensing ads)) [
            | inr lacks ↦ rw (hci_event_handler, scans, lacks) s
            | inl has ↦
                rw (hci_event_handler, scans, has)
                  (record { flag = s.flag; earned = λ e. absurd (cc e) })
          ]
  ]
  hci-Sound c (le_connection_complete handle) s = elim (Bool-cases (is_connecting c.state)) [
    | inr other ↦ rw (hci_event_handler, other) s
    | inl waits ↦
        rw (hci_event_handler, waits) (record { flag = s.flag; earned = λ e. absurd (cc e) })
  ]
  hci-Sound c disconnection_complete s = elim (Bool-cases c.listener_registered) [
    | inl on ↦ elim (Bool-cases (is_off c.state)) [
      | inl off ↦
          rw (hci_event_handler, on, off)
            (record { flag = refl; earned = λ e. absurd (cc (off_earns c.state off e)) })
      | inr up ↦
          rw (hci_event_handler, on, up) (record { flag = refl; earned = λ e. absurd (cc e) })
    ]
    | inr none_on ↦ elim (Bool-cases (is_off c.state)) [
      | inl off ↦
          rw (hci_event_handler, none_on, off)
            (record {
              flag = sym none_on ∙ s.flag;
              earned = λ e. absurd (cc (off_earns c.state off e));
            })
      | inr up ↦
          rw (hci_event_handler, none_on, up)
            (record { flag = sym none_on ∙ s.flag; earned = λ e. absurd (cc e) })
    ]
  ]
  hci-Sound c other_hci s = s

  -- In every order of events: the flag of the listener says whether the client last began or ended
  -- to listen, and a client that waits for notifications to be enabled, or is ready, listens.
  pub bt_client-Sound : (c : Client) → Reachable codes c → Sound c
  bt_client-Sound c starts = record { flag = refl; earned = λ e. absurd (cc e) }
  bt_client-Sound c (hears b event r) = hci-Sound b event (bt_client-Sound b r)
  bt_client-Sound c (answers b event r) = gatt-Sound b event b.state refl (bt_client-Sound b r)
