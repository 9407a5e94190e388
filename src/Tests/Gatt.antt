-- ===== src/Tests/Gatt.antt =====
-- The Bluetooth client on concrete inputs.
use pico_cpp.Common.{◌≡◌, ◌+◌, ◌*◌, ◌^◌, refl, List, [], ◌∷◌, ◌++◌, true, false}
use pico_cpp.Gatt.Client.{BtCodes, AdData, Client, at_start}
use pico_cpp.Gatt.Client.{tc_w4_ready}
use pico_cpp.Gatt.Client.{stack_state, advertising_report}
use pico_cpp.Gatt.Client.{start_scan}
use pico_cpp.Gatt.Client.{stop_scan, connect, discover_services}
use pico_cpp.Gatt.Client.{discover_characteristics, listen, enable_notifications}
use pico_cpp.Gatt.Client.{temperature}
use pico_cpp.Gatt.Client.{advertisement_report_contains_service, lists_service}
use pico_cpp.Gatt.Client.{hci_event_handler}
use pico_cpp.Gatt.Listening.{starts, hears, Sound, bt_client-Sound}
use pico_cpp.Gatt.Reading.{Event, hci, run, sensor, reads_temperature}

abbrev codes : BtCodes
codes = record {
  con_handle_invalid = 0xffff;
  att_error_success = 0;
  complete_list_of_16_bit_uuids = 3;
  environmental_sensing = 0x181a;
}

abbrev scanning : Client
scanning = hci_event_handler codes at_start (stack_state true)

bt_client-Sound_example : Sound scanning
bt_client-Sound_example = bt_client-Sound codes scanning (hears at_start (stack_state true) starts)

-- The advertisement of the repository's own server.
abbrev own_ads : List AdData
own_ads =
    record { data_type = 1; payload = 6 ∷ []; behind = 0x17 }
    ∷ record { data_type = 3; payload = 0x1a ∷ 0x18 ∷ []; behind = 0 }
    ∷ []

abbrev stranger : Event
stranger = hci (advertising_report [] 5 0)

no_service : advertisement_report_contains_service codes 0x181a [] ≡ false
unfolding advertisement_report_contains_service
no_service = refl

own_service : advertisement_report_contains_service codes 0x181a own_ads ≡ true
unfolding advertisement_report_contains_service lists_service
own_service = refl

reads_temperature_example :
    run codes at_start
      (hci (stack_state true) ∷ (stranger ∷ []) ++ sensor codes own_ads 77 1 64 8 9 0xc4 0x09)
    ≡ record at_start {
      state = tc_w4_ready;
      server_addr = 77;
      server_addr_type = 1;
      connection_handle = 64;
      server_service = 8;
      server_characteristic = 9;
      listener_registered = true;
      calls =
          temperature (0xc4 + 0x09 * 2 ^ 8)
          ∷ enable_notifications 64 9
          ∷ listen 64 9
          ∷ discover_characteristics 64 8
          ∷ discover_services 64
          ∷ connect 77 1
          ∷ stop_scan
          ∷ start_scan
          ∷ [];
    }
reads_temperature_example =
    reads_temperature codes at_start (stranger ∷ []) own_ads 77 1 64 8 9 0xc4 0x09 (no_service, tt)
      own_service
