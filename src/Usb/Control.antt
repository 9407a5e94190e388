-- ===== src/Usb/Control.antt =====
-- usb/device/dev_lowlevel: the answers to setup packets on endpoint 0.
use pico_cpp.Common.{ℕ, ◌+◌, ◌*◌, ◌-◌, List, [], ◌∷◌, min}
use pico_cpp.Common.{none, some, true, false, bit_and}
use pico_cpp.Common.{leb, ◌==◌, if◌then◌else◌, length, drop, u8, ◌>>>◌, get_elem?}
use pico_cpp.Usb.Hw.{UsbHw}
use pico_cpp.Usb.Descriptors.{Endpoint, endpoint_bytes, endpoints, device_descriptor}
use pico_cpp.Usb.Descriptors.{config_descriptor, interface_descriptor, w_total_length}
use pico_cpp.Usb.Descriptors.{lang_descriptor, descriptor_strings, ep0_in_addr}
use pico_cpp.Usb.Transfer.{out_of_range, Result, ok, err, ◌>>=◌}
use pico_cpp.Usb.Transfer.{SetupPacket, Device, update, memcpy, deref}
use pico_cpp.Usb.Transfer.{usb_get_endpoint_configuration, usb_start_transfer}

-- The do-while loop of `usb_prepare_string_descriptor`: each character, the terminator
-- included, and a zero, stored from `i` on.
unfoldable pub string_loop : List ℕ → ℕ → List ℕ → Result (List ℕ)
string_loop [] i buf = memcpy buf i (0 ∷ 0 ∷ [])
string_loop (c ∷ cs) i buf = memcpy buf i (c ∷ 0 ∷ []) >>= λ buf'. string_loop cs (i + 2) buf'

-- The new `ep0_buf` and the length that is returned.
unfoldable pub usb_prepare_string_descriptor : List ℕ → List ℕ → Result (List ℕ × ℕ)
usb_prepare_string_descriptor str buf =
    let b_length = u8 (2 + length str * 2) in
    memcpy buf 0 (b_length ∷ 0x03 ∷ []) >>= λ buf'.
    string_loop str 2 buf' >>= λ buf''. ok (buf'', b_length)

-- The loop of `usb_handle_config_descriptor` over the endpoints from 2 on: `off` is where
-- `buf` points in `ep0_buf`.
unfoldable pub copy_endpoints : List Endpoint → ℕ → List ℕ → Result (List ℕ × ℕ)
copy_endpoints [] off buf = ok (buf, off)
copy_endpoints (e ∷ es) off buf = elim (e.descriptor) [
  | none ↦ copy_endpoints es off buf
  | some de ↦ memcpy buf off (endpoint_bytes de) >>= λ buf'.
      copy_endpoints es (off + length (endpoint_bytes de)) buf'
]

-- What is put into `ep0_buf`, and where the copying ends.
unfoldable pub fill_config : List ℕ → ℕ → Result (List ℕ × ℕ)
unfolding copy_endpoints
fill_config ep0 w_length = memcpy ep0 0 config_descriptor >>= λ buf.
    let off = length config_descriptor in
    (if leb w_total_length w_length
      then (memcpy buf off interface_descriptor >>= λ buf'.
          copy_endpoints (drop 2 endpoints) (off + length interface_descriptor) buf')
      else ok (buf, off))

-- An index beyond `descriptor_strings` reads outside the array.
unfoldable pub string_descriptor : List ℕ → ℕ → Result (List ℕ × ℕ)
unfolding descriptor_strings usb_prepare_string_descriptor string_loop
string_descriptor ep0 i =
    if i == 0
    then (memcpy ep0 0 lang_descriptor >>= λ buf. ok (buf, length lang_descriptor))
    else elim (get_elem? descriptor_strings (i - 1)) [
      | none ↦ err out_of_range
      | some str ↦ usb_prepare_string_descriptor str ep0
    ]

unfoldable pub usb_bus_reset : Device → Device
usb_bus_reset d = record d {
  dev_addr = 0;
  should_set_address = false;
  dev_addr_ctrl = 0;
  configured = false;
}

module _ (hw : UsbHw) where
  unfoldable pub usb_handle_device_descriptor : Device → SetupPacket → Result Device
  usb_handle_device_descriptor d pkt =
      let ep = usb_get_endpoint_configuration ep0_in_addr in
      deref ep >>= λ i.
      usb_start_transfer hw (record d { next_pid = update d.next_pid i 1 }) ep device_descriptor
        (min 18 pkt.w_length)

  unfoldable pub usb_handle_config_descriptor : Device → SetupPacket → Result Device
  usb_handle_config_descriptor d pkt = fill_config d.ep0_buf pkt.w_length >>= λ r.
      usb_start_transfer hw (record d { ep0_buf = r.0 })
        (usb_get_endpoint_configuration ep0_in_addr) r.0 (min r.1 pkt.w_length)

  unfoldable pub usb_handle_string_descriptor : Device → SetupPacket → Result Device
  unfolding string_descriptor
  usb_handle_string_descriptor d pkt =
      string_descriptor d.ep0_buf (bit_and pkt.w_value 0xff) >>= λ r.
      usb_start_transfer hw (record d { ep0_buf = r.0 })
        (usb_get_endpoint_configuration ep0_in_addr) r.0 (min r.1 pkt.w_length)

  unfoldable pub usb_acknowledge_out_request : Device → Result Device
  usb_acknowledge_out_request d =
      usb_start_transfer hw d (usb_get_endpoint_configuration ep0_in_addr) [] 0

  unfoldable pub usb_set_device_address : Device → SetupPacket → Result Device
  usb_set_device_address d pkt =
      usb_acknowledge_out_request
        (record d { dev_addr = u8 (bit_and pkt.w_value 0xff); should_set_address = true })

  unfoldable pub usb_set_device_configuration : Device → Result Device
  usb_set_device_configuration d =
      usb_acknowledge_out_request d >>= λ d'. ok (record d' { configured = true })

  -- The `switch` on the descriptor type; an unknown type is only printed.
  unfoldable pub get_descriptor : Device → SetupPacket → Result Device
  unfolding usb_handle_device_descriptor
  get_descriptor d pkt =
      let descriptor_type = pkt.w_value >>> 8 in
      if descriptor_type == 0x01
      then usb_handle_device_descriptor d pkt
      else (if descriptor_type == 0x02
          then usb_handle_config_descriptor d pkt
          else (if descriptor_type == 0x03 then usb_handle_string_descriptor d pkt else ok d))

  unfoldable pub set_request : Device → SetupPacket → Result Device
  set_request d pkt =
      if pkt.b_request == 0x05
      then usb_set_device_address d pkt
      else (if pkt.b_request == 0x09
          then usb_set_device_configuration d
          else usb_acknowledge_out_request d)

  unfoldable pub usb_handle_setup_packet : Device → Result Device
  unfolding get_descriptor set_request
  usb_handle_setup_packet d =
      let pkt = d.setup_packet in
      deref (usb_get_endpoint_configuration ep0_in_addr) >>= λ i.
      let d' = record d { next_pid = update d.next_pid i 1 } in
      (if pkt.bm_request_type == 0x00
        then set_request d' pkt
        else (if pkt.bm_request_type == 0x80
            then (if pkt.b_request == 0x06 then get_descriptor d' pkt else ok d')
            else ok d'))
